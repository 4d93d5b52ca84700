-- ===== src/Material/Rotation.antt =====
-- PINs that were enrolled verify, and a stale material is upgraded once.
use workers_auth.Prelude.{
  ℕ, String, ◌≡◌, ◌⊎◌, refl, none, some, List, inl, inr, arith, find, eq_refl, Option-cases,
  Bool-cases, All,
}
use workers_auth.Base64.{base64url_decode}
use workers_auth.Base64.Encoded.{IsByte}
use workers_auth.Base64.RoundTrip.{decode-encode}
use workers_auth.Crypto.{WebCrypto, timing_safe_equal_bytes}
use workers_auth.Crypto.Compare.{timing_safe_equal_bytes_iff}
use workers_auth.Keys.{KeyRing, build_key_ring}
use workers_auth.Keys.Ring.{build_key_ring_finds}
use workers_auth.Creds.{PinMaterial, CredentialMaterial, pin_material, other_material}
use workers_auth.Material.{
  refused, accepted, undecodable, derive, enroll, is_stale_material, verify,
}

-- A text of the stored material is not base64url.
abbrev pub IsUndecodable : CredentialMaterial → Type 0
IsUndecodable material =
    (m : PinMaterial) × (material ≡ pin_material m)
    × ((base64url_decode m.salt ≡ none) ⊎ (base64url_decode m.hash ≡ none))

module _ (w : WebCrypto) where
  enrolled :
      (iterations : ℕ) (keys : KeyRing) (salt other : List ℕ) (pin : String)
      → find keys.current.key_id keys.by_id ≡ some keys.current
      → All IsByte salt
      → All IsByte (derive w pin keys.current.pepper_key salt iterations)
      → verify w iterations keys other pin (pin_material (enroll w iterations keys salt pin))
        ≡ accepted none
  unfolding verify enroll is_stale_material
  enrolled iterations keys salt other pin h salt_bytes hash_bytes =
      let hash = derive w pin keys.current.pepper_key salt iterations in
      let read_salt = (decode-encode salt salt_bytes).0 in
      let read_hash = (decode-encode hash hash_bytes).0 in
      rw (h, read_salt, read_hash)
        (ground
          (arith, (timing_safe_equal_bytes_iff hash hash).1 refl, eq_refl keys.current.key_id))

  -- What a verification comes to.
  abbrev pub Verdict : ℕ → KeyRing → (salt other : List ℕ) → String → CredentialMaterial → Type 0
  Verdict iterations keys salt other pin material =
      (verify w iterations keys salt pin material ≡ refused)
      ⊎ ((verify w iterations keys salt pin material ≡ accepted none)
          ⊎ (((m : PinMaterial) × (verify w iterations keys salt pin material ≡ accepted (some m))
                × (verify w iterations keys other pin (pin_material m) ≡ accepted none))
              ⊎ ((verify w iterations keys salt pin material ≡ undecodable)
                  × IsUndecodable material)))

  upgraded :
      (iterations : ℕ) (keys : KeyRing) (salt other : List ℕ) (pin : String)
      (material : CredentialMaterial)
      → verify w iterations keys other pin (pin_material (enroll w iterations keys salt pin))
        ≡ accepted none
      → Verdict iterations keys salt other pin material
  unfolding verify
  upgraded iterations keys salt other pin other_material h = inl refl
  upgraded iterations keys salt other pin (pin_material m) h =
      elim (Option-cases (find m.pepper_ver keys.by_id)) [
        | inl e ↦ inl (rw e)
        | inr (k, e) ↦ elim (Option-cases (base64url_decode m.hash)) [
          | inl b ↦ inr (inr (inr (rw (e, b), (m, refl, inr b))))
          | inr (expected, b) ↦ elim (Option-cases (base64url_decode m.salt)) [
            | inl c ↦ inr (inr (inr (rw (e, b, c), (m, refl, inl c))))
            | inr (stored, c) ↦
                elim (Bool-cases (
                  timing_safe_equal_bytes (derive w pin k.pepper_key stored m.iterations)
                    expected)) [
                      | inr f ↦ inl (rw (e, b, c, f))
                      | inl f ↦ elim (Bool-cases (is_stale_material w iterations keys m)) [
                        | inr g ↦ inr (inl (rw (e, b, c, f, g)))
                        | inl g ↦
                            inr
                              (inr (inl (enroll w iterations keys salt pin, rw (e, b, c, f, g), h)))
                      ]
                    ]
          ]
        ]
      ]

  -- Where the salt and the hash that PBKDF2 derives are bytes: a PIN that was enrolled under the
  -- secrets in force verifies and needs no upgrade; where a verification upgrades the stored
  -- material, the PIN verifies against the new material and needs no further upgrade; and a
  -- verification throws only if the stored salt or hash is not base64url.
  pub verify-enroll :
      (secret : String) (previous : List String) (iterations : ℕ) (salt other : List ℕ)
      (pin : String) (material : CredentialMaterial)
      → All IsByte salt
      → All IsByte
          (derive w pin (build_key_ring w secret previous).current.pepper_key salt iterations)
      → let keys = build_key_ring w secret previous in
        (verify w iterations keys other pin (pin_material (enroll w iterations keys salt pin))
          ≡ accepted none)
        × Verdict iterations keys salt other pin material
  verify-enroll secret previous iterations salt other pin material salt_bytes hash_bytes =
      let keys = build_key_ring w secret previous in
      let fresh =
        enrolled iterations keys salt other pin (build_key_ring_finds w secret previous).1
          salt_bytes hash_bytes in
      (fresh, upgraded iterations keys salt other pin material fresh)
