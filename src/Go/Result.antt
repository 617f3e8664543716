-- ===== src/Go/Result.antt =====
-- Go's `(value, error)` pairs, and panics.
use go_adstc.Prelude.{ℕ}

-- The errors that the program makes or passes on.
pub data Error : Type 0 where
  -- io.EOF and io.ErrUnexpectedEOF
  eof unexpected_eof : Error
  -- the context of a request was done: ctx.Err()
  aborted : Error
  -- "got ADS error number %v"
  ads_error : ℕ → Error
  -- "unable to create notification worker"
  notification_refused : Error
  -- "wrong length of response! Got %d bytes and it should be 24"
  wrong_length : ℕ → Error
  -- net.Dial
  dial_failed : Error
  -- "symbol does not exist"
  no_symbol : Error
  -- "error doing DT UPLOAD %d", of another error
  upload_failed : Error → Error
  -- strconv's ErrSyntax and ErrRange
  syntax out_of_range : Error
  -- "cannot write to a whole struct at once"
  whole_struct : Error
  -- "data type not parseable", "datatype '%s' write is not implemented yet"
  not_parseable not_implemented : Error
  -- "BOOL Size Wrong" and its kind; "unknown format cannot parse"
  wrong_size unknown_format : Error

-- What a call leaves: a value with a nil error, a non-nil error, or a panic.
pub data Result {ℓ} (A : Type ℓ) : Type ℓ where
  ok : A → Result A
  err : Error → Result A
  panic : Result A

infixl 5 ◌>>=◌ ◌>>◌
abbrev pub ◌>>=◌ {ℓ κ} : {A : Type ℓ} {B : Type κ} → Result A → (A → Result B) → Result B
ok a >>= f = f a
err e >>= f = err e
panic >>= f = panic

abbrev pub ◌>>◌ {ℓ κ} : {A : Type ℓ} {B : Type κ} → Result A → Result B → Result B
m >> k = m >>= λ _. k
