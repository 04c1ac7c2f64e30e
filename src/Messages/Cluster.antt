-- ===== src/Messages/Cluster.antt =====
-- lib/protocol/bep_clusterconfig.go: the folders and devices that a device announces.
use Prim.Native.String.{String}
use vidsync_app.Base.{
  ℕ, ◌≤◌, ◌≡◌, refl, Bool, List, [], ◌∷◌, Option, none, some, map, ℤ, All, if◌then◌else◌, ltb,
  length, take, take-all, arith, Bool-cases, not, eqb_ℤ, pos, ◌⊎◌, inl, inr,
}
use vidsync_app.DeviceId.Text.{Bytes}
use vidsync_app.DeviceId.Luhn.{Returned, ok, err, panic, ◌>>=◌}

-- The enumerations are numbers, and the message takes them as they are.
abbrev pub FolderType : Type 0
FolderType = ℤ

abbrev pub Compression : Type 0
Compression = ℤ

abbrev pub FolderStopReason : Type 0
FolderStopReason = ℤ

abbrev pub stop_reason_paused : ℕ
stop_reason_paused = 1

-- An `IndexID` is a `uint64`, and an ID is its bytes.
pub record Device : Type 0 where
  pub id : Bytes
  pub name : String
  pub addresses : List String
  pub compression : Compression
  pub cert_name : String
  pub max_sequence : ℤ
  pub introducer : Bool
  pub index_id : ℕ
  pub skip_introduction_removals : Bool
  pub encryption_password_token : Bytes

pub record WireDevice : Type 0 where
  pub id : Bytes
  pub name : String
  pub addresses : List String
  pub compression : ℤ
  pub cert_name : String
  pub max_sequence : ℤ
  pub introducer : Bool
  pub index_id : ℕ
  pub skip_introduction_removals : Bool
  pub encryption_password_token : Bytes

unfoldable pub device_to_wire : Device → WireDevice
device_to_wire d = record {
  id = d.id;
  name = d.name;
  addresses = d.addresses;
  compression = d.compression;
  cert_name = d.cert_name;
  max_sequence = d.max_sequence;
  introducer = d.introducer;
  index_id = d.index_id;
  skip_introduction_removals = d.skip_introduction_removals;
  encryption_password_token = d.encryption_password_token;
}

-- Go's conversion of a slice to an array of 32 bytes panics on a shorter slice.
unfoldable pub to_array32 : Bytes → Returned Bytes
to_array32 bs = if ltb (length bs) 32 then err panic else ok (take 32 bs)

-- The result, given the array.
abbrev device_with : Bytes → WireDevice → Device
device_with id w = record {
  id = id;
  name = w.name;
  addresses = w.addresses;
  compression = w.compression;
  cert_name = w.cert_name;
  max_sequence = w.max_sequence;
  introducer = w.introducer;
  index_id = w.index_id;
  skip_introduction_removals = w.skip_introduction_removals;
  encryption_password_token = w.encryption_password_token;
}

unfoldable pub device_from_wire : WireDevice → Returned Device
device_from_wire w = to_array32 w.id >>= λ id. ok (device_with id w)

-- A loop of conversions, of which the first panic ends all.
unfoldable pub from_wire_all {ℓ κ} :
    {V : Type ℓ} {W : Type κ} → (V → Returned W) → List V → Returned (List W)
from_wire_all f [] = ok []
from_wire_all f (v ∷ vs) = f v >>= λ w. from_wire_all f vs >>= λ ws. ok (w ∷ ws)

pub record Folder : Type 0 where
  pub id : String
  pub label : String
  pub type : FolderType
  pub stop_reason : FolderStopReason
  pub devices : List Device

pub record WireFolder : Type 0 where
  pub id : String
  pub label : String
  pub type : ℤ
  pub stop_reason : ℤ
  pub devices : List WireDevice

unfoldable pub folder_to_wire : Folder → WireFolder
folder_to_wire f = record {
  id = f.id;
  label = f.label;
  type = f.type;
  stop_reason = f.stop_reason;
  devices = map device_to_wire f.devices;
}

abbrev folder_with : List Device → WireFolder → Folder
folder_with devices w = record {
  id = w.id;
  label = w.label;
  type = w.type;
  stop_reason = w.stop_reason;
  devices = devices;
}

unfoldable pub folder_from_wire : WireFolder → Returned Folder
folder_from_wire w =
    from_wire_all device_from_wire w.devices >>= λ devices. ok (folder_with devices w)

unfoldable pub is_running : Folder → Bool
is_running f = not (eqb_ℤ f.stop_reason (pos stop_reason_paused))

pub record ClusterConfig : Type 0 where
  pub folders : List Folder
  pub secondary : Bool

pub record WireClusterConfig : Type 0 where
  pub folders : List WireFolder
  pub secondary : Bool

unfoldable pub cluster_config_to_wire : ClusterConfig → WireClusterConfig
cluster_config_to_wire c = record {
  folders = map folder_to_wire c.folders;
  secondary = c.secondary;
}

-- A nil message stays nil.
unfoldable pub cluster_config_from_wire : Option WireClusterConfig → Returned (Option ClusterConfig)
cluster_config_from_wire none = ok none
cluster_config_from_wire (some w) = do
  folders ← from_wire_all folder_from_wire w.folders
  ok (some (record { folders = folders; secondary = w.secondary }))

-- The IDs in the program are arrays of 32 bytes.
abbrev pub HasId : Device → Type 0
HasId d = length d.id ≡ 32

abbrev pub HasIds : Folder → Type 0
HasIds f = All HasId f.devices

device_arrives : (d : Device) → HasId d → device_from_wire (device_to_wire d) ≡ ok d
unfolding device_from_wire device_to_wire to_array32
device_arrives d h = rw (h) (λ i. ok (record d { id = take-all 32 d.id (omega arith) i }))

-- A loop gives back what was sent if each step does.
module _ {ℓ κ μ} {A : Type ℓ} {V : Type κ} (to : A → V) (from : V → Returned A)
    (P : A → Type μ) where
  all_arrive :
      ((a : A) → P a → from (to a) ≡ ok a)
      → (xs : List A) → All P xs
      → from_wire_all from (map to xs) ≡ ok xs
  unfolding from_wire_all
  all_arrive each [] h = refl
  all_arrive each (a ∷ xs) h = rw (each a h.0, all_arrive each xs h.1) refl

folder_arrives : (f : Folder) → HasIds f → folder_from_wire (folder_to_wire f) ≡ ok f
unfolding folder_from_wire folder_to_wire
folder_arrives f h =
    rw (all_arrive device_to_wire device_from_wire HasId device_arrives f.devices h) refl

-- A cluster configuration arrives as it was sent, with all folders and their devices in order, as
-- every ID in it has 32 bytes.
pub cluster_config_from-to_wire :
    (c : ClusterConfig)
    → All HasIds c.folders
    → cluster_config_from_wire (some (cluster_config_to_wire c)) ≡ ok (some c)
unfolding cluster_config_from_wire cluster_config_to_wire
cluster_config_from-to_wire c h =
    rw (all_arrive folder_to_wire folder_from_wire HasIds folder_arrives c.folders h) refl

-- A conversion that goes well exactly where `P` holds, and panics elsewhere.
abbrev Converts {ℓ κ μ} :
    {V : Type ℓ} {W : Type κ} (P : V → Type μ) → (V → Returned W) → V → Type (κ ⊔ μ)
Converts P from v = (P v × (w : _) × (from v ≡ ok w)) ⊎ ((¬ P v) × (from v ≡ err panic))

module _ {ℓ κ μ} {V : Type ℓ} {W : Type κ} (P : V → Type μ) (from : V → Returned W) where
  all-Converts :
      ((v : V) → Converts P from v) → (vs : List V) → Converts (All P) (from_wire_all from) vs
  unfolding from_wire_all
  all-Converts each [] = inl (tt, [], refl)
  all-Converts each (v ∷ vs) = elim (each v) [
    | inr (n, e) ↦ inr (λ h. n h.0, rw (e) refl)
    | inl (p, w, e) ↦ elim (all-Converts each vs) [
      | inr (n, r) ↦ inr (λ h. n h.1, rw (e, r) refl)
      | inl (ps, ws, r) ↦ inl ((p, ps), w ∷ ws, rw (e, r) refl)
    ]
  ]

abbrev pub HasLongId : WireDevice → Type 0
HasLongId w = 32 ≤ length w.id

abbrev pub HasLongIds : WireFolder → Type 0
HasLongIds w = All HasLongId w.devices

device-Converts : (w : WireDevice) → Converts HasLongId device_from_wire w
unfolding device_from_wire to_array32
device-Converts w = elim (Bool-cases (ltb (length w.id) 32)) [
  | inl e ↦ inr (λ h. ground arith, rw (e) refl)
  | inr e ↦ inl (ground arith, device_with (take 32 w.id) w, rw (e) refl)
]

folder-Converts : (w : WireFolder) → Converts HasLongIds folder_from_wire w
unfolding folder_from_wire
folder-Converts w = elim (all-Converts HasLongId device_from_wire device-Converts w.devices) [
  | inl (h, ds, e) ↦ inl (h, folder_with ds w, rw (e) refl)
  | inr (n, e) ↦ inr (n, rw (e) refl)
]

-- A cluster configuration from another device is converted if every device ID in it has at least
-- 32 bytes. If one is shorter, wherever it stands, the program panics.
pub cluster_config-cases :
    (c : WireClusterConfig)
    → (All HasLongIds c.folders
        × (r : ClusterConfig) × (cluster_config_from_wire (some c) ≡ ok (some r)))
      ⊎ ((¬ All HasLongIds c.folders) × (cluster_config_from_wire (some c) ≡ err panic))
unfolding cluster_config_from_wire
cluster_config-cases c = elim (all-Converts HasLongIds folder_from_wire folder-Converts c.folders) [
  | inl (h, fs, e) ↦ inl (h, record { folders = fs; secondary = c.secondary }, rw (e) refl)
  | inr (n, e) ↦ inr (n, rw (e) refl)
]
