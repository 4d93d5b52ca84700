-- ===== src/Keys.antt =====
-- keys.ts: the purpose-bound keys of one secret, and the ring of the current and previous ones.
pub mod Ring
use workers_auth.Prelude.{
  ℕ, String, Option, List, [], ◌∷◌, if◌then◌else◌, Table, find, put, is_some, ◌==◌,
}
use workers_auth.Crypto.{WebCrypto, to_hex}

pub record DerivedKeys : Type 0 where
  pub key_id : String
  pub otp_key : List ℕ
  pub pepper_key : List ℕ

-- `by_id` is the `Map` from a key id.
pub record KeyRing : Type 0 where
  pub current : DerivedKeys
  pub by_id : Table DerivedKeys

abbrev hkdf_salt : String
hkdf_salt = "workers-auth/device-auth/v1"

module _ (w : WebCrypto) where
  unfoldable pub derive_keys : String → DerivedKeys
  derive_keys secret =
      let derive = λ (info : String) (bytes : ℕ).
        w.hkdf (w.encode secret) (w.encode hkdf_salt) (w.encode info) bytes in
      record {
        key_id = to_hex (derive "key-id" 8);
        otp_key = derive "otp-hmac" 32;
        pepper_key = derive "pin-pepper" 32;
      }

  -- One round of the loop over `previousSecrets`.
  unfoldable add_previous : String → String → Table DerivedKeys → Table DerivedKeys
  add_previous secret previous by_id =
      let keys = derive_keys previous in
      if previous == secret
      then by_id
      else if is_some (find keys.key_id by_id)
      then by_id
      else put keys.key_id keys by_id

  unfoldable pub add_all : String → List String → Table DerivedKeys → Table DerivedKeys
  unfolding add_previous
  add_all secret [] by_id = by_id
  add_all secret (previous ∷ more) by_id = add_all secret more (add_previous secret previous by_id)

  unfoldable pub build_key_ring : String → List String → KeyRing
  build_key_ring secret previous_secrets =
      let current = derive_keys secret in
      record {
        current = current;
        by_id = add_all secret previous_secrets (put current.key_id current []);
      }
