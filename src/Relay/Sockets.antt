-- ===== src/Relay/Sockets.antt =====
-- src/bin/shm2_relayd.rs: the listeners and their connections. The calls of the system are a parameter; a
-- failed one gives its `errno`.
use shm2_rs.Base.{
  ℕ, ◌+◌, ◌≡◌, refl, ◌⊎◌, inl, inr, List, [], ◌∷◌, ◌++◌, Option, none, some, Option-cases, arith,
}
use shm2_rs.Base.Text.{Bytes}
use shm2_rs.Relay.Listen.{ListenSpec, tcp, vsock}
use shm2_rs.Relay.Clients.{Relay, client_count_up, accept, invoke, Reach, here, next}
use shm2_rs.Relay.Lines.{on_read, on_end}

pub record Sockets : Type 0 where
  pub bind_tcp : (host : Bytes) (port : ℕ) → ℕ ⊎ ℕ
  pub vsock_socket : ℕ ⊎ ℕ
  pub bind_vsock : (fd cid port : ℕ) → Option ℕ
  pub listen_on : (fd backlog : ℕ) → Option ℕ

-- The file descriptors that are closed, and the listening one or an error.
abbrev pub Opened : Type 0
Opened = List ℕ × (ℕ ⊎ ℕ)

abbrev or_close : (fd : ℕ) → Option ℕ → Opened → Opened
or_close fd (some errno) later = (fd ∷ [], inr errno)
or_close fd none later = later

pub vsock_listener : Sockets → (cid port : ℕ) → Opened
vsock_listener calls cid port = elim calls.vsock_socket [
  | inr errno ↦ ([], inr errno)
  | inl fd ↦
      or_close fd (calls.bind_vsock fd cid port) (or_close fd (calls.listen_on fd 64) ([], inl fd))
]

-- What is listened on, up to the loop.
pub listener : Sockets → ListenSpec → Opened
listener calls (tcp host port) = ([], calls.bind_tcp host port)
listener calls (vsock cid port) = vsock_listener calls cid port

-- A counted client is announced to the main loop.
abbrev announced : Relay → List ℕ → Relay
announced s [] = s
announced s (current ∷ seen) = record s { seen = seen; posted = s.posted ++ current ∷ [] }

pub take_client : Relay → Relay
take_client s = announced (client_count_up s) (client_count_up s).seen

-- The loop of both listeners, over the outcomes of `accept`: an error is passed over.
pub accept_all : Relay → List (ℕ ⊎ ℕ) → Relay
accept_all s [] = s
accept_all s (inr errno ∷ incoming) = accept_all s incoming
accept_all s (inl conn ∷ incoming) = accept_all (take_client s) incoming

abbrev pub clients : List (ℕ ⊎ ℕ) → ℕ
clients [] = 0
clients (inr errno ∷ incoming) = clients incoming
clients (inl conn ∷ incoming) = 1 + clients incoming

-- `hold_vsock_connection`, over what `read` gives: bytes, or an error; the end of the list is a read of
-- none. The pieces, the descriptors closed, and the error.
pub hold_vsock : (fd : ℕ) → Bytes → List (Bytes ⊎ ℕ) → List Bytes × List ℕ × Option ℕ
hold_vsock fd pending [] = (on_end pending, fd ∷ [], none)
hold_vsock fd pending (inr errno ∷ reads) = ([], fd ∷ [], some errno)
hold_vsock fd pending (inl buf ∷ reads) =
    let (pieces, left) = on_read pending buf in
    let (later, closed, e) = hold_vsock fd left reads in (pieces ++ later, closed, e)

-- A listener that fails leaves no descriptor open, and one that succeeds closes none.
pub vsock_listener-Tidy :
    (calls : Sockets) (cid port fd : ℕ)
    → calls.vsock_socket ≡ inl fd
    → (vsock_listener calls cid port ≡ ([], inl fd))
      ⊎ ((errno : ℕ) × (vsock_listener calls cid port ≡ (fd ∷ [], inr errno)))
unfolding vsock_listener
vsock_listener-Tidy calls cid port fd e = elim (Option-cases (calls.bind_vsock fd cid port)) [
  | inr (errno, f) ↦ rw (e, f) (inr (errno, refl))
  | inl f ↦ elim (Option-cases (calls.listen_on fd 64)) [
    | inr (errno, g) ↦ rw (e, f, g) (inr (errno, refl))
    | inl g ↦ rw (e, f, g) (inl refl)
  ]
]

-- The descriptor of a connection is closed once, whether the client leaves or a read fails.
pub hold_vsock-closed :
    (fd : ℕ) (pending : Bytes) (reads : List (Bytes ⊎ ℕ))
    → (hold_vsock fd pending reads).1 ≡ fd ∷ []
unfolding hold_vsock
hold_vsock-closed fd pending [] = refl
hold_vsock-closed fd pending (inr errno ∷ reads) = refl
hold_vsock-closed fd pending (inl buf ∷ reads) = hold_vsock-closed fd (on_read pending buf).1 reads

accept_all-Steps :
    (s u : Relay) (incoming : List (ℕ ⊎ ℕ)) → Reach s u → Reach s (accept_all u incoming)
unfolding accept_all take_client client_count_up
accept_all-Steps s u [] run = run
accept_all-Steps s u (inr errno ∷ incoming) run = accept_all-Steps s u incoming run
accept_all-Steps s u (inl conn ∷ incoming) run =
    accept_all-Steps s (take_client u) incoming
      (next (next run (accept refl)) (invoke [] u.seen (u.count + 1) refl refl))

accept_all-count :
    (s : Relay) (incoming : List (ℕ ⊎ ℕ))
    → (accept_all s incoming).count ≡ s.count + clients incoming
unfolding accept_all take_client client_count_up
accept_all-count s [] = omega arith
accept_all-count s (inr errno ∷ incoming) = accept_all-count s incoming
accept_all-count s (inl conn ∷ incoming) = omega (arith, accept_all-count (take_client s) incoming)

-- The loop of a listener is steps of the daemon, and counts each client that it accepts.
pub accept_all-Reach :
    (s : Relay) (incoming : List (ℕ ⊎ ℕ))
    → Reach s (accept_all s incoming) × ((accept_all s incoming).count ≡ s.count + clients incoming)
accept_all-Reach s incoming = (accept_all-Steps s s incoming here, accept_all-count s incoming)
