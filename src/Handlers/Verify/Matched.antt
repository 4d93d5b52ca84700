-- ===== src/Handlers/Verify/Matched.antt =====
-- What an email code that is accepted has shown, and what one that is refused costs.
use Prim.Native.String.{◌++◌}
use workers_auth.Prelude.{
  ℕ, String, true, ◌≡◌, some, inl, inr, arith, Option-cases, Bool-cases, find,
}
use workers_auth.Crypto.{hmac_hex, timing_safe_equal}
use workers_auth.Keys.{DerivedKeys}
use workers_auth.Limits.{Hit}
use workers_auth.Codes.{ReservedEmailCode, reserve_email_code_attempt}
use workers_auth.Web.{World, value, stop, Reply, User}
use workers_auth.Request.{Request}
use workers_auth.Handlers.{Settings}
use workers_auth.Handlers.Plumbing.{Budget}
use workers_auth.Handlers.Email.{key_ring}
use workers_auth.Handlers.Verify.{
  VerifyInput, check_code, reserve_attempt, match_code, invalid, refund, checked,
}

pub record CodeProof (s : Settings) (now : ℕ) (input : VerifyInput) (world : World) : Type 0 where
  pub reserved : ReservedEmailCode
  pub keys : DerivedKeys
  pub live :
      (reserve_email_code_attempt input.email now s.code_max_attempts world.store.codes).0
      ≡ some reserved
  pub keyed : find reserved.key_id (key_ring s).by_id ≡ some keys
  pub equal :
      timing_safe_equal s.crypto
        (hmac_hex s.crypto keys.otp_key (input.email ++ ("\n" ++ input.code)))
        reserved.code_hash
      ≡ true

module _ (s : Settings) (req : Request) (now : ℕ) where
  invalid-stops :
      {A : Type 0} (email reason : String) (world : World)
      → (invalid s {A = A} now email reason world).0 ≡ stop Reply.invalid_code
  unfolding invalid checked
  invalid-stops email reason world = elim (Option-cases s.breaker) [
    | inl e ↦ rw (e, invalid)
    | inr (b, e) ↦ rw (e, invalid)
  ]

  -- A code is accepted only if the address has a live one with attempts left, made with a key of
  -- the ring, and the code entered has its digest.
  pub check_code-CodeProof :
      (input : VerifyInput) (budget : Budget) (slot : Hit) (world : World) (user : User)
      → (check_code s req now input budget slot world).0 ≡ value user
      → CodeProof s now input world
  unfolding check_code reserve_attempt match_code refund invalid
  check_code-CodeProof input budget slot world user h =
      elim (Option-cases
        (reserve_email_code_attempt input.email now s.code_max_attempts world.store.codes).0) [
          | inl e ↦ ground arith
          | inr (r, e) ↦ elim (Option-cases (find r.key_id (key_ring s).by_id)) [
            | inl f ↦ ground (
              arith,
              invalid-stops {A = Unit {0}} input.email "unknown_key"
                  (reserve_attempt s req now input.email budget slot world).1,
            )
            | inr (k, f) ↦
                elim (Bool-cases (
                  timing_safe_equal s.crypto
                    (hmac_hex s.crypto k.otp_key (input.email ++ ("\n" ++ input.code)))
                    r.code_hash)) [
                      | inl t ↦ record { reserved = r; keys = k; live = e; keyed = f; equal = t }
                      | inr t ↦ ground (
                        arith,
                        invalid-stops {A = Unit {0}} input.email "mismatch"
                            (reserve_attempt s req now input.email budget slot world).1,
                      )
                    ]
          ]
        ]
