-- ===== src/Credentials/App.antt =====
-- An application, the functions of OpenSSL that its tokens use, and the checks of a channel.
use Prim.Native.Nat.{bit_and}
use push1st.Prelude.{
  ℕ, Bool, true, false, not, ◌&&◌, ◌||◌, List, [], ◌∷◌, Option, Bytes, bytes_eq, ◌==◌,
}
use push1st.Channel.Kind.{Kind, none_kind, pub_kind, priv_kind, pres_kind, prot_kind}

-- HMAC-SHA256 of a key and a text, and AES-256-CBC under a key and an initialisation vector; `none`
-- where the library reports an error.
pub record Crypto : Type 0 where
  pub hmac : Bytes → Bytes → Option Bytes
  pub evp_encrypt : Bytes → Bytes → Bytes → Option Bytes
  pub evp_decrypt : Bytes → Bytes → Bytes → Option Bytes

pub record App : Type 0 where
  pub secret : Bytes
  pub channels : ℕ
  pub origins : List Bytes

-- channels_t
abbrev pub kind_flag : Kind → ℕ
kind_flag none_kind = 0
kind_flag pub_kind = 1
kind_flag priv_kind = 2
kind_flag pres_kind = 4
kind_flag prot_kind = 8

-- `Channels & type`
unfoldable pub has_kind : ℕ → Kind → Bool
has_kind flags k = not (bit_and flags (kind_flag k) == 0)

unfoldable pub is_member : Bytes → List Bytes → Bool
is_member o [] = false
is_member o (p ∷ ps) = bytes_eq p o || is_member o ps

unfoldable pub allows_origin : App → Bytes → Bool
allows_origin a origin = elim a.origins [ [] ↦ true | _ ∷ _ ↦ is_member origin a.origins ]

unfoldable pub is_pub : Kind → Bool
is_pub pub_kind = true
is_pub _ = false

-- IsAllowChannelSession and IsAllowChannelToken, over the verdict of the token's check.
unfoldable pub is_allow_channel : App → Kind → Bytes → Bool → Bool
is_allow_channel a k origin valid =
    has_kind a.channels k && (allows_origin a origin && (is_pub k || valid))
