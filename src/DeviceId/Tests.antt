-- ===== src/DeviceId/Tests.antt =====
-- Runs of lib/protocol/deviceid.go and lib/protocol/luhn.go, and the theorems at such inputs.
use vidsync_app.Base.{ℕ, ◌≡◌, ◌≢◌, refl, [], ◌∷◌, arith, replicate}
use vidsync_app.DeviceId.Text.{Bytes, codes}
use vidsync_app.DeviceId.Luhn.{
  ok, err, bad_digit, codepoint32, addend, luhn_sum, digit32, check_digit, luhn32, luhnify,
  chunkify,
}
use vidsync_app.DeviceId.Luhn.Check.{luhn32-single_error}
use vidsync_app.DeviceId.Base32.{encode, decode_string}
use vidsync_app.DeviceId.Base32.RoundTrip.{decode_string-encode}
use vidsync_app.DeviceId.Id.{IsDeviceId, to_string, unmarshal_text, empty_device_id}
use vidsync_app.DeviceId.Id.RoundTrip.{unmarshal_text-to_string}

luhn_run : luhn32 (codes "AB725E4GHIQPL3ZFGT") ≡ ok b'G'
unfolding luhn32 luhn_sum codepoint32 addend check_digit digit32
luhn_run = refl

luhn_bad : luhn32 (codes "3734EJEKMRHWPZQTWYQ1") ≡ err bad_digit
unfolding luhn32 luhn_sum codepoint32 addend check_digit digit32
luhn_bad = refl

first_digit : luhn32 (codes "AB") ≡ ok b'6'
unfolding luhn32 luhn_sum codepoint32 addend check_digit digit32
first_digit = refl

second_digit : luhn32 (codes "AC") ≡ ok b'4'
unfolding luhn32 luhn_sum codepoint32 addend check_digit digit32
second_digit = refl

luhn32-single_error_example : ◌≢◌ {A = ℕ} b'6' b'4'
luhn32-single_error_example =
    luhn32-single_error (b'A' ∷ []) [] b'B' b'C' b'6' b'4' (λ e. omega arith) first_digit
      second_digit

abbrev digits52 : Bytes
digits52 = replicate 52 b'A'

abbrev digits56 : Bytes
digits56 = replicate 56 b'A'

luhnify_run : luhnify digits52 ≡ ok digits56
unfolding luhnify luhn32 luhn_sum codepoint32 addend check_digit digit32
luhnify_run = refl

chunkify_run : chunkify (codes "ABCDEFGHIJKLMN") ≡ ok (codes "ABCDEFG-HIJKLMN")
unfolding chunkify
chunkify_run = refl

encode_run : encode (codes "foobar") ≡ codes "MZXW6YTBOI======"
unfolding encode digit32
encode_run = refl

decodes_again : decode_string (encode (codes "foobar")) ≡ ok (codes "foobar")
decodes_again = decode_string-encode (codes "foobar") (omega arith)

abbrev some_id : Bytes
some_id = replicate 32 7

some_id-IsDeviceId : IsDeviceId some_id
some_id-IsDeviceId = record { len = refl; bytes = omega arith }

unmarshal_text-to_string_example :
    (t : Bytes) × (to_string some_id ≡ ok t) × (unmarshal_text empty_device_id t ≡ ok some_id)
unmarshal_text-to_string_example =
    unmarshal_text-to_string some_id empty_device_id some_id-IsDeviceId refl
