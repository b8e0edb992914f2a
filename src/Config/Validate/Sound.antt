-- ===== src/Config/Validate/Sound.antt =====
-- What a configuration that passes `Config::validate` (config.rs) is.
use text.Mathlib.TextEquality.{eq_iff}
use roboplc_middle.Prelude.{
  ◌+◌, ◌≤◌, ◌⊎◌, ◌≡◌, ◌≢◌, ◌↔◌, refl, arith, false, String, List, [], ◌∷◌, All, All-zip, All-unzip,
  DistinctBy,
}
use roboplc_middle.Config.{
  FieldMapping, SignalGroup, Device, StreamConfig, Config, required_registers, saturating_add16,
}
use roboplc_middle.Config.Validate.{
  GroupError, Check, valid, invalid, panicked, ◌then_check◌, contains, validate_fields,
  validate_group, validate_address, group_error, validate_groups, validate_devices, validate_stream,
  validate_streams, validate,
}

abbrev NotIn : List String → String → Type 0
NotIn seen s = All (λ x. x ≢ s) seen

contains_iff : (seen : List String) (s : String) → (contains seen s ≡ false) ↔ NotIn seen s
unfolding contains
contains_iff [] s = (λ e. tt, λ h. refl)
contains_iff (x ∷ seen) s =
    let (to, from) = contains_iff seen s in
    (
      λ e. (λ same. ground (arith, eq_iff x s), to (ground (arith, eq_iff x s))),
      λ h. ground (arith, eq_iff x s, h.0, from h.1),
    )

then_check_iff :
    {E : Type 0} (a b : Check E) → ((a then_check b) ≡ valid) ↔ ((a ≡ valid) × (b ≡ valid))
then_check_iff valid b = (λ e. (refl, e), λ h. h.1)
then_check_iff (invalid e) b = (λ h. cc, λ h. absurd (cc (h.0)))
then_check_iff panicked b = (λ h. cc, λ h. absurd (cc (h.0)))

-- The field's registers lie in the group, or the group has all 65535, where no end is checked.
abbrev pub FieldWithin : SignalGroup → FieldMapping → Type 0
FieldWithin g f =
    (f.offset + required_registers f.data_type ≤ g.register_count) ⊎ (65535 ≤ g.register_count)

within_iff :
    (g : SignalGroup) (f : FieldMapping)
    → (saturating_add16 f.offset (required_registers f.data_type) ≤ g.register_count)
      ↔ FieldWithin g f
within_iff g f = (λ h. ground arith, λ h. ground arith)

pub record GroupValid (g : SignalGroup) : Type 0 where
  pub distinct_fields : DistinctBy (λ (f : FieldMapping). f.name) g.fields
  pub fields_within : All (FieldWithin g) g.fields

abbrev FieldsNew : List String → List FieldMapping → Type 0
FieldsNew seen = All (λ f. NotIn seen f.name)

validate_fields_sound :
    (g : SignalGroup) (seen : List String) (fields : List FieldMapping)
    → validate_fields g seen fields ≡ valid
    → FieldsNew seen fields
      × DistinctBy (λ (f : FieldMapping). f.name) fields
      × All (FieldWithin g) fields
unfolding validate_fields
validate_fields_sound g seen [] e = (tt, tt, tt)
validate_fields_sound g seen (f ∷ fields) e =
    let fresh : contains seen f.name ≡ false = ground arith in
    let sum : saturating_add16 f.offset (required_registers f.data_type) ≤ g.register_count =
      ground arith in
    let within = (within_iff g f).0 sum in
    let rest : validate_fields g (f.name ∷ seen) fields ≡ valid = ground arith in
    let (new, distinct, all_within) = validate_fields_sound g (f.name ∷ seen) fields rest in
    let (other, new') = All-unzip (λ h. f.name ≢ h.name) (λ h. NotIn seen h.name) fields new in
    (((contains_iff seen f.name).0 fresh, new'), (other, distinct), (within, all_within))

validate_fields_complete :
    (g : SignalGroup) (seen : List String) (fields : List FieldMapping)
    → FieldsNew seen fields
    → DistinctBy (λ (f : FieldMapping). f.name) fields
    → All (FieldWithin g) fields
    → validate_fields g seen fields ≡ valid
unfolding validate_fields
validate_fields_complete g seen [] n d w = refl
validate_fields_complete g seen (f ∷ fields) (n, ns) (d, ds) (w, ws) =
    let fresh : contains seen f.name ≡ false = (contains_iff seen f.name).1 n in
    let new =
      All-zip (λ (h : FieldMapping). f.name ≢ h.name) (λ h. NotIn seen h.name) fields d ns in
    let sum = (within_iff g f).1 w in
    ground (arith, validate_fields_complete g (f.name ∷ seen) fields new ds ws)

All-true : {A : Type 0} (xs : List A) → All (λ x. Unit {0}) xs
All-true [] = tt
All-true (x ∷ xs) = (tt, All-true xs)

-- A signal group is accepted exactly if its fields have different names and end within its
-- registers or it has all 65535.
pub validate_group_iff : (g : SignalGroup) → (validate_group g ≡ valid) ↔ GroupValid g
unfolding validate_group
validate_group_iff g = (
  λ e.
      let (n, d, w) = validate_fields_sound g [] g.fields e in
      record { distinct_fields = d; fields_within = w },
  λ v. validate_fields_complete g [] g.fields (All-true g.fields) v.distinct_fields v.fields_within,
)

-- The address of a group passes.
abbrev pub AddressValid : String → SignalGroup → Type 0
AddressValid device g = validate_address device g ≡ valid

abbrev pub DeviceValid : Device → Type 0
DeviceValid d = All (λ g. AddressValid d.id g × GroupValid g) d.signal_groups

group_error_iff :
    (device : String) (c : Check GroupError) → (group_error device c ≡ valid) ↔ (c ≡ valid)
group_error_iff device valid = (λ e. refl, λ e. refl)
group_error_iff device (invalid x) = (λ e. cc, λ e. cc)
group_error_iff device panicked = (λ e. cc, λ e. cc)

validate_groups_iff :
    (device : String) (groups : List SignalGroup)
    → (validate_groups device groups ≡ valid)
      ↔ All (λ g. AddressValid device g × GroupValid g) groups
unfolding validate_groups
validate_groups_iff device [] = (λ e. tt, λ h. refl)
validate_groups_iff device (g ∷ groups) =
    let (to, from) = validate_groups_iff device groups in
    let tail = group_error device (validate_group g) then_check validate_groups device groups in
    let (to1, from1) = then_check_iff (validate_address device g) tail in
    let (to2, from2) =
      then_check_iff (group_error device (validate_group g)) (validate_groups device groups) in
    let (to3, from3) = group_error_iff device (validate_group g) in
    let (to4, from4) = validate_group_iff g in
    (
      λ e. let (a, b) = to1 e in let (c, d) = to2 b in ((a, to4 (to3 c)), to d),
      λ h. from1 (h.0.0, from2 (from3 (from4 h.0.1), from h.1)),
    )

abbrev DevicesNew : List String → List Device → Type 0
DevicesNew seen = All (λ d. NotIn seen d.id)

validate_devices_sound :
    (seen : List String) (devices : List Device)
    → validate_devices seen devices ≡ valid
    → DevicesNew seen devices × DistinctBy (λ (d : Device). d.id) devices × All DeviceValid devices
unfolding validate_devices
validate_devices_sound seen [] e = (tt, tt, tt)
validate_devices_sound seen (d ∷ devices) e =
    let fresh : contains seen d.id ≡ false = ground arith in
    let both : (validate_groups d.id d.signal_groups
          then_check validate_devices (d.id ∷ seen) devices)
        ≡ valid =
      ground (arith, fresh) in
    let (groups, rest) = (then_check_iff _ _).0 both in
    let (new, distinct, all_valid) = validate_devices_sound (d.id ∷ seen) devices rest in
    let (other, new') = All-unzip (λ h. d.id ≢ h.id) (λ h. NotIn seen h.id) devices new in
    (
      ((contains_iff seen d.id).0 fresh, new'),
      (other, distinct),
      ((validate_groups_iff d.id d.signal_groups).0 groups, all_valid),
    )

validate_devices_complete :
    (seen : List String) (devices : List Device)
    → DevicesNew seen devices
    → DistinctBy (λ (d : Device). d.id) devices
    → All DeviceValid devices
    → validate_devices seen devices ≡ valid
unfolding validate_devices
validate_devices_complete seen [] n x v = refl
validate_devices_complete seen (d ∷ devices) (n, ns) (x, xs) (v, vs) =
    let fresh : contains seen d.id ≡ false = (contains_iff seen d.id).1 n in
    let new = All-zip (λ (h : Device). d.id ≢ h.id) (λ h. NotIn seen h.id) devices x ns in
    rw fresh (
      (then_check_iff _ _).1 (
        (validate_groups_iff d.id d.signal_groups).1 v,
        validate_devices_complete (d.id ∷ seen) devices new xs vs,
      ))

abbrev pub StreamValid : StreamConfig → Type 0
StreamValid s = (5 ≤ s.poll_interval_ms) × (s.poll_interval_ms ≤ 5000)

validate_stream_iff : (s : StreamConfig) → (validate_stream s ≡ valid) ↔ StreamValid s
unfolding validate_stream
validate_stream_iff s = (λ e. ground arith, λ h. ground arith)

validate_streams_iff :
    (streams : List StreamConfig) → (validate_streams streams ≡ valid) ↔ All StreamValid streams
unfolding validate_streams
validate_streams_iff [] = (λ e. tt, λ h. refl)
validate_streams_iff (s ∷ streams) =
    let (to, from) = validate_streams_iff streams in
    let (to1, from1) = then_check_iff (validate_stream s) (validate_streams streams) in
    let (to2, from2) = validate_stream_iff s in
    (λ e. let (a, b) = to1 e in (to2 a, to b), λ h. from1 (from2 h.0, from h.1))

pub record ConfigValid (c : Config) : Type 0 where
  pub distinct_devices : DistinctBy (λ (d : Device). d.id) c.devices
  pub devices_valid : All DeviceValid c.devices
  pub streams_valid : All StreamValid c.streams

-- A configuration is accepted exactly if its devices have different ids, the address of every
-- signal group passes, every group has different field names and either fields within its registers
-- or all 65535 registers, for then the end of a field is not compared, and every stream's interval
-- lies between 5 and 5000 ms.
pub validate_iff : (c : Config) → (validate c ≡ valid) ↔ ConfigValid c
unfolding validate
validate_iff c =
    let (to, from) = then_check_iff (validate_devices [] c.devices) (validate_streams c.streams) in
    (
      λ e.
          let (devices, streams) = to e in
          let (n, x, v) = validate_devices_sound [] c.devices devices in
          record {
            distinct_devices = x;
            devices_valid = v;
            streams_valid = (validate_streams_iff c.streams).0 streams;
          },
      λ v. from (
        validate_devices_complete [] c.devices (All-true c.devices) v.distinct_devices
            v.devices_valid,
        (validate_streams_iff c.streams).1 v.streams_valid,
      ),
    )
