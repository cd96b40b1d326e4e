-- ===== src/Src/Properties.antt =====
-- src/shm2src.rs: `properties` and `property`. Nicknames and blurbs are left out.
use shm2_rs.Base.{◌≡◌, refl, none, some, Bool, true, false, if◌then◌else◌}
use shm2_rs.Base.Text.{Bytes}
use shm2_rs.Platform.Resolve.{Target, default_path}
use shm2_rs.Src.{
  Settings, default_settings, State, Property, set_shm_path, set_is_live, set_live_only,
  set_latest_only, set_property,
}

pub data Name : Type 0 where
  shm_path is_live live_only latest_only : Name

pub data Value : Type 0 where
  text : Bytes → Value
  boolean : Bool → Value

-- The default value of a property.
pub param_default : Target → Name → Value
param_default target shm_path = text (default_path target)
param_default target is_live = boolean false
param_default target live_only = boolean true
param_default target latest_only = boolean true

pub property : Settings → Name → Value
property s shm_path = text s.shm_path
property s is_live = boolean s.is_live
property s live_only = boolean s.live_only
property s latest_only = boolean s.latest_only

abbrev pub name_of : Property → Name
name_of (set_shm_path v) = shm_path
name_of (set_is_live v) = is_live
name_of (set_live_only v) = live_only
name_of (set_latest_only v) = latest_only

abbrev pub value_of : Target → Property → Value
value_of target (set_shm_path (some v)) = text v
value_of target (set_shm_path none) = param_default target shm_path
value_of target (set_is_live v) = boolean v
value_of target (set_live_only v) = boolean v
value_of target (set_latest_only v) = boolean v

abbrev pub same_name : Name → Name → Bool
same_name shm_path shm_path = true
same_name is_live is_live = true
same_name live_only live_only = true
same_name latest_only latest_only = true
same_name _ _ = false

-- The settings at the start are the defaults that the specification promises.
pub property-default_settings :
    (target : Target) (name : Name)
    → property (default_settings target) name ≡ param_default target name
unfolding property param_default
property-default_settings target shm_path = refl
property-default_settings target is_live = refl
property-default_settings target live_only = refl
property-default_settings target latest_only = refl

-- A property that is set has that value afterwards, none set to its default's, and every other property
-- keeps its own.
pub property-set_property :
    (target : Target) (s : State) (p : Property) (name : Name)
    → property (set_property target s p).settings name
      ≡ (if same_name name (name_of p) then value_of target p else property s.settings name)
unfolding set_property property param_default
property-set_property target s (set_shm_path (some v)) shm_path = refl
property-set_property target s (set_shm_path (some v)) is_live = refl
property-set_property target s (set_shm_path (some v)) live_only = refl
property-set_property target s (set_shm_path (some v)) latest_only = refl
property-set_property target s (set_shm_path none) shm_path = refl
property-set_property target s (set_shm_path none) is_live = refl
property-set_property target s (set_shm_path none) live_only = refl
property-set_property target s (set_shm_path none) latest_only = refl
property-set_property target s (set_is_live v) shm_path = refl
property-set_property target s (set_is_live v) is_live = refl
property-set_property target s (set_is_live v) live_only = refl
property-set_property target s (set_is_live v) latest_only = refl
property-set_property target s (set_live_only v) shm_path = refl
property-set_property target s (set_live_only v) is_live = refl
property-set_property target s (set_live_only v) live_only = refl
property-set_property target s (set_live_only v) latest_only = refl
property-set_property target s (set_latest_only v) shm_path = refl
property-set_property target s (set_latest_only v) is_live = refl
property-set_property target s (set_latest_only v) live_only = refl
property-set_property target s (set_latest_only v) latest_only = refl
