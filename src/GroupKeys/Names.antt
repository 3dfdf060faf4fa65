-- ===== src/GroupKeys/Names.antt =====
-- The checks of names and epochs in src/services/groupKeySharing.js.
use servidor_drive.Prelude.{
  ℕ, ◌-◌, ◌^◌, Bool, ◌&&◌, ◌||◌, not, leb, ltb, ◌==◌, if◌then◌else◌, every, length, is_nonempty,
  Text, Result, ok, err,
}

pub data GroupError : Type 0 where
  invalid_group_wrap revoked_recipient stale_epoch scope_mismatch device_key_required
        crypto_failed :
      GroupError

abbrev pub max_name_length : ℕ
max_name_length = 160

abbrev pub max_safe_integer : ℕ
max_safe_integer = 2 ^ 53 - 1

-- `[A-Za-z0-9._:-]`
unfoldable pub is_name_character : ℕ → Bool
is_name_character c =
    (leb b'A' c && leb c b'Z')
    || (leb b'a' c && leb c b'z')
    || (leb b'0' c && leb c b'9')
    || c == b'.'
    || c == b'_'
    || c == b':'
    || c == b'-'

unfoldable pub is_name : Text → Bool
unfolding is_name_character
is_name s = is_nonempty s && not (ltb max_name_length (length s)) && every is_name_character s

-- `text`: a value that is missing is the empty text.
unfoldable pub text : Text → Result GroupError Text
text s = if is_name s then ok s else err invalid_group_wrap

unfoldable pub epoch : ℕ → Result GroupError ℕ
epoch n = if ltb max_safe_integer n || ltb n 1 then err invalid_group_wrap else ok n
