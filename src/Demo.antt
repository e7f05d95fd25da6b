-- ===== src/Demo.antt =====
-- src/demo.rs: the values that the demonstration sends, how it looks for them in bytes, and the
-- stream that its capturing upstream answers with. blake3 is a parameter.
pub mod Tokens
pub mod Clear
pub mod Reads
pub mod Standing
pub mod Places
pub mod Collected
pub mod Stream
pub mod Fixture
pub mod Proof
mod Tests
use agent_veil.Prelude.{
  ℕ, Text, bytes, Bool, false, not, ◌&&◌, ◌||◌, ◌==◌, leb, [], ◌∷◌, length, take, text_eq,
}

abbrev pub local_session_header : Text
local_session_header = bytes "x-agentveil-session"

abbrev pub synthetic_email : Text
synthetic_email = bytes "ava.agentveil@example.test"

abbrev pub synthetic_private_ip : Text
synthetic_private_ip = bytes "10.24.8.15"

-- `windows(n).any(test)`, for a number that is not 0.
unfoldable pub any_window : (Text → Bool) → ℕ → Text → Bool
any_window test n [] = false
any_window test n (b ∷ s) =
    let rest = any_window test n s in (leb n (length (b ∷ s)) && test (take n (b ∷ s))) || rest

unfoldable pub contains_bytes : Text → Text → Bool
contains_bytes haystack needle =
    not (length needle == 0) && any_window (λ w. text_eq w needle) (length needle) haystack

unfoldable pub contains_hashed_value : (Text → Text) → Text → ℕ → Text → Bool
contains_hashed_value hash haystack needle_len expected =
    not (needle_len == 0)
    && leb needle_len (length haystack)
    && any_window (λ w. text_eq (hash w) expected) needle_len haystack
