-- ===== src/Material.antt =====
-- credentials.ts: `pinCredential`, which enrols and verifies PINs. A row has salt and hash in
-- base64url.
pub mod Rotation
use workers_auth.Prelude.{
  ℕ, String, Bool, Option, none, some, List, eqb, if◌then◌else◌, not, ◌||◌, find, ◌==◌,
}
use workers_auth.Base64.{base64url_encode, base64url_decode}
use workers_auth.Crypto.{WebCrypto, timing_safe_equal_bytes}
use workers_auth.Keys.{DerivedKeys, KeyRing}
use workers_auth.Creds.{PinMaterial, CredentialMaterial, pin_material, other_material}

pub data CredentialVerifyResult : Type 0 where
  refused : CredentialVerifyResult
  accepted : (upgraded : Option PinMaterial) → CredentialVerifyResult
  -- a throw of `base64urlDecode`
  undecodable : CredentialVerifyResult

module _ (w : WebCrypto) where
  unfoldable pub derive : String → (pepper_key salt : List ℕ) → ℕ → List ℕ
  derive pin pepper_key salt iterations =
      w.pbkdf2 (w.hmac_sha256 pepper_key (w.encode pin)) salt iterations

  -- `salt` is the fresh random salt.
  unfoldable pub enroll : ℕ → KeyRing → List ℕ → String → PinMaterial
  unfolding derive base64url_encode
  enroll iterations keys salt pin = record {
    iterations = iterations;
    salt = base64url_encode salt;
    hash = base64url_encode (derive pin keys.current.pepper_key salt iterations);
    pepper_ver = keys.current.key_id;
  }

  -- `pepperVer !== current.keyId || iterations !== iterations`
  unfoldable pub is_stale_material : ℕ → KeyRing → PinMaterial → Bool
  is_stale_material iterations keys m =
      not (m.pepper_ver == keys.current.key_id) || not (eqb m.iterations iterations)

  -- The comparison, with what the hash and the salt decode to.
  abbrev compare_with :
      ℕ
      → KeyRing
      → List ℕ
      → String
      → PinMaterial
      → DerivedKeys
      → (expected stored_salt : Option (List ℕ)) → CredentialVerifyResult
  compare_with iterations keys salt pin m k none stored_salt = undecodable
  compare_with iterations keys salt pin m k (some expected) none = undecodable
  compare_with iterations keys salt pin m k (some expected) (some stored_salt) =
      if timing_safe_equal_bytes (derive pin k.pepper_key stored_salt m.iterations) expected
      then accepted (
          if is_stale_material iterations keys m
          then some (enroll iterations keys salt pin)
          else none)
      else refused

  abbrev verify_with :
      ℕ → KeyRing → List ℕ → String → PinMaterial → Option DerivedKeys → CredentialVerifyResult
  verify_with iterations keys salt pin m none = refused
  verify_with iterations keys salt pin m (some k) =
      compare_with iterations keys salt pin m k (base64url_decode m.hash) (base64url_decode m.salt)

  unfoldable pub verify :
      ℕ → KeyRing → List ℕ → String → CredentialMaterial → CredentialVerifyResult
  verify iterations keys salt pin other_material = refused
  verify iterations keys salt pin (pin_material m) =
      verify_with iterations keys salt pin m (find m.pepper_ver keys.by_id)
