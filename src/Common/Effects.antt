-- ===== src/Common/Effects.antt =====
-- Methods that change an object and may raise: what was written before the raise stays written.
use mathlib.Core.Bool.{Bool}
use proxy_hopper_v.Common.Texts.{Text}

-- The exceptions that the program raises or tells apart.
pub data Error : Type 0 where
  -- KeyError, with the key
  key_error : Text → Error
  -- ValueError
  value_error : Text → Error
  -- asyncio.TimeoutError, with the message
  timeout_error : Text → Error
  -- aiohttp.ClientError, and whether it is an asyncio.TimeoutError as well, as ServerTimeoutError is
  client_error : Bool → Text → Error
  -- ConnectionResetError, BrokenPipeError, asyncio.IncompleteReadError
  connection_closed : Error
  -- any other `Exception`
  other_error : Text → Error

pub data Result {ℓ} (A : Type ℓ) : Type ℓ where
  ok : A → Result A
  err : Error → Result A

abbrev pub Exec {ℓ} : Type ℓ → Type ℓ → Type ℓ
Exec S A = S → Result A × S

module _ {ℓ} {S A : Type ℓ} where
  abbrev pub pure : A → Exec S A
  pure a s = (ok a, s)

  abbrev pub raise : Error → Exec S A
  raise e s = (err e, s)

module _ {ℓ} {S A B : Type ℓ} where
  abbrev pub continue : (A → Exec S B) → Result A → Exec S B
  continue f (ok a) s = f a s
  continue f (err e) s = (err e, s)

  infixl 5 ◌>>=◌ ◌>>◌
  abbrev pub ◌>>=◌ : Exec S A → (A → Exec S B) → Exec S B
  ◌>>=◌ m f s = continue f (m s).0 (m s).1

  abbrev pub ◌>>◌ : Exec S A → Exec S B → Exec S B
  m >> n = m >>= λ _. n
