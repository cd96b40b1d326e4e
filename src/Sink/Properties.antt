-- ===== src/Sink/Properties.antt =====
-- src/shm2sink.rs: `properties` and `property`. Nicknames and blurbs are left out.
use shm2_rs.Base.{
  ℕ, ◌*◌, ◌^◌, ◌-◌, ◌≤◌, ◌≡◌, refl, none, some, max, Bool, true, false, if◌then◌else◌, arith,
}
use shm2_rs.Base.Text.{Bytes}
use shm2_rs.Platform.Resolve.{Target, default_path}
use shm2_rs.Sink.{
  Settings, default_settings, State, Property, set_shm_path, set_shm_size, set_perms,
  set_timeline_beacon_ms, set_property,
}

pub data Name : Type 0 where
  shm_path shm_size perms timeline_beacon_ms : Name

pub data Value : Type 0 where
  text : Bytes → Value
  number : ℕ → Value

-- A number is between `minimum` and `maximum`.
pub record ParamSpec : Type 0 where
  pub default : Value
  pub minimum : ℕ
  pub maximum : ℕ

-- Where the builder is told no bound, it is that of the type.
unfoldable pub param_spec : Target → Name → ParamSpec
param_spec target shm_path = record {
  default = text (default_path target);
  minimum = 0;
  maximum = 0;
}
param_spec target shm_size = record {
  default = number (64 * 1024 * 1024);
  minimum = 0;
  maximum = 2 ^ 64 - 1;
}
param_spec target perms = record { default = number 0o660; minimum = 0; maximum = 0o7777 }
param_spec target timeline_beacon_ms = record {
  default = number 250;
  minimum = 1;
  maximum = 60_000;
}

pub property : Settings → Name → Value
property s shm_path = text s.shm_path
property s shm_size = number s.shm_size
property s perms = number s.perms
property s timeline_beacon_ms = number s.timeline_beacon_ms

-- The property that is set, and the value that it is to have.
abbrev pub name_of : Property → Name
name_of (set_shm_path v) = shm_path
name_of (set_shm_size v) = shm_size
name_of (set_perms v) = perms
name_of (set_timeline_beacon_ms v) = timeline_beacon_ms

abbrev pub value_of : Target → Property → Value
value_of target (set_shm_path (some v)) = text v
value_of target (set_shm_path none) = (param_spec target shm_path).default
value_of target (set_shm_size v) = number v
value_of target (set_perms v) = number v
value_of target (set_timeline_beacon_ms v) = number v

-- What GObject checks of a number before it sets it.
abbrev pub InRange : Target → Property → Type 0
InRange target (set_shm_path v) = Unit
InRange target (set_shm_size v) = v ≤ (param_spec target shm_size).maximum
InRange target (set_perms v) = v ≤ (param_spec target perms).maximum
InRange target (set_timeline_beacon_ms v) =
    ((param_spec target timeline_beacon_ms).minimum ≤ v)
    × (v ≤ (param_spec target timeline_beacon_ms).maximum)

abbrev pub same_name : Name → Name → Bool
same_name shm_path shm_path = true
same_name shm_size shm_size = true
same_name perms perms = true
same_name timeline_beacon_ms timeline_beacon_ms = true
same_name _ _ = false

at_least : (v : ℕ) → 1 ≤ v → ◌≡◌ {A = Value} (number (max v 1)) (number v)
at_least v h = ground (arith, h)

at_start :
    (target : Target) (name : Name)
    → property (default_settings target) name ≡ (param_spec target name).default
unfolding property param_spec
at_start target shm_path = refl
at_start target shm_size = refl
at_start target perms = refl
at_start target timeline_beacon_ms = refl

on_set :
    (target : Target) (s : State) (p : Property)
    → InRange target p
    → (name : Name)
    → property (set_property target s p).settings name
      ≡ (if same_name name (name_of p) then value_of target p else property s.settings name)
unfolding set_property property param_spec
on_set target s (set_shm_path (some v)) range shm_path = refl
on_set target s (set_shm_path (some v)) range shm_size = refl
on_set target s (set_shm_path (some v)) range perms = refl
on_set target s (set_shm_path (some v)) range timeline_beacon_ms = refl
on_set target s (set_shm_path none) range shm_path = refl
on_set target s (set_shm_path none) range shm_size = refl
on_set target s (set_shm_path none) range perms = refl
on_set target s (set_shm_path none) range timeline_beacon_ms = refl
on_set target s (set_shm_size v) range shm_path = refl
on_set target s (set_shm_size v) range shm_size = refl
on_set target s (set_shm_size v) range perms = refl
on_set target s (set_shm_size v) range timeline_beacon_ms = refl
on_set target s (set_perms v) range shm_path = refl
on_set target s (set_perms v) range shm_size = refl
on_set target s (set_perms v) range perms = refl
on_set target s (set_perms v) range timeline_beacon_ms = refl
on_set target s (set_timeline_beacon_ms v) range shm_path = refl
on_set target s (set_timeline_beacon_ms v) range shm_size = refl
on_set target s (set_timeline_beacon_ms v) range perms = refl
on_set target s (set_timeline_beacon_ms v) range timeline_beacon_ms = at_least v range.0

-- A property that is set to a value of its range has that value afterwards, none set to its default's, and
-- every other property keeps its own. The settings at the start are the defaults that the specification
-- promises.
pub property-set_property :
    (target : Target) (s : State) (p : Property)
    → InRange target p
    → ((name : Name)
        → property (set_property target s p).settings name
          ≡ (if same_name name (name_of p) then value_of target p else property s.settings name))
      × ((name : Name) → property (default_settings target) name ≡ (param_spec target name).default)
property-set_property target s p range = (on_set target s p range, at_start target)
