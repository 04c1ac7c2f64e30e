-- ===== src/DeviceId/Id.antt =====
-- The `DeviceID` of lib/protocol/deviceid.go, an array of 32 bytes, and its text.
pub mod Printed
pub mod RoundTrip
use Prim.Native.Nat.{compare, Ordering}
use vidsync_app.Base.{
  ℕ, zero, suc, ◌+◌, ◌*◌, ◌%◌, ◌≡◌, Bool, true, false, ◌&&◌, List, [], ◌∷◌, ◌++◌, ◌==◌, ltb,
  if◌then◌else◌, length, take, drop, replicate, All,
}
use vidsync_app.DeviceId.Text.{Bytes, bytes_equal, to_upper, trim}
use vidsync_app.DeviceId.Luhn.{
  Returned, ok, err, bad_length, panic, ◌>>=◌, luhnify, unluhnify, chunkify, unchunkify, untypeoify,
}
use vidsync_app.DeviceId.Base32.{encode, decode_string, pads}
use vidsync_app.DeviceId.Base32.RoundTrip.{IsByte}

abbrev pub device_id_length : ℕ
device_id_length = 32

pub record IsDeviceId (n : Bytes) : Type 0 where
  pub len : length n ≡ device_id_length
  pub bytes : All IsByte n

abbrev pub repeated_device_id : ℕ → Bytes
repeated_device_id v = replicate device_id_length v

abbrev pub empty_device_id : Bytes
empty_device_id = repeated_device_id 0

-- `copy(n[:], bs)`: what `bs` does not reach stays.
unfoldable pub copy_into : Bytes → Bytes → Bytes
copy_into n bs = take (length n) bs ++ drop (length bs) n

unfoldable pub device_id_from_bytes : Bytes → Returned Bytes
unfolding copy_into
device_id_from_bytes bs =
    if length bs == device_id_length then ok (copy_into empty_device_id bs) else err bad_length

unfoldable pub to_string : Bytes → Returned Bytes
to_string n =
    if bytes_equal n empty_device_id
    then ok []
    else (do id ← luhnify (trim b'=' (encode n)); chunkify id)

abbrev decode_into : Bytes → Bytes → Returned Bytes
decode_into n id = do dec ← decode_string (id ++ pads 4); ok (copy_into n dec)

-- The receiver's old value is `n`; a failure leaves it.
unfoldable pub unmarshal_text : Bytes → Bytes → Returned Bytes
unmarshal_text n bs =
    let id = unchunkify (untypeoify (to_upper (trim b'=' bs))) in
    if length id == 0
    then ok empty_device_id
    else if length id == 56
    then (do plain ← unluhnify id; decode_into n plain)
    else if length id == 52
    then decode_into n id
    else err bad_length

unfoldable pub device_id_from_string : Bytes → Returned Bytes
device_id_from_string s = unmarshal_text empty_device_id s

-- `binary.BigEndian.Uint64` of the first eight bytes.
big_endian : ℕ → ℕ → Bytes → ℕ
big_endian zero acc s = acc
big_endian (suc k) acc [] = acc
big_endian (suc k) acc (c ∷ s) = big_endian k (acc * 256 + c) s

unfoldable pub short : Bytes → ℕ
unfolding big_endian
short n = big_endian 8 0 n
