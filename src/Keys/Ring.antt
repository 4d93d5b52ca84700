-- ===== src/Keys/Ring.antt =====
-- The ring finds the current keys and those of every previous secret.
use workers_auth.Prelude.{
  String, ◌≡◌, refl, true, Option, none, some, List, [], ◌∷◌, arith, Table, find, put, find-put,
  find-put_self, is_some, eq_iff, All,
}
use workers_auth.Crypto.{WebCrypto}
use workers_auth.Keys.{DerivedKeys, derive_keys, add_previous, add_all, build_key_ring}

module _ (w : WebCrypto) where
  add_previous-keeps :
      (secret previous id : String) (keys : DerivedKeys) (by_id : Table DerivedKeys)
      → find id by_id ≡ some keys
      → find id (add_previous w secret previous by_id) ≡ some keys
  unfolding add_previous
  add_previous-keeps secret previous id keys by_id e = ground (
    arith,
    find-put (derive_keys w previous).key_id id (derive_keys w previous) by_id,
    eq_iff (derive_keys w previous).key_id id,
  )

  add_all-keeps :
      (secret : String) (previous : List String) (id : String) (keys : DerivedKeys)
      (by_id : Table DerivedKeys)
      → find id by_id ≡ some keys
      → find id (add_all w secret previous by_id) ≡ some keys
  unfolding add_all
  add_all-keeps secret [] id keys by_id e = e
  add_all-keeps secret (p ∷ previous) id keys by_id e =
      add_all-keeps secret previous id keys (add_previous w secret p by_id)
        (add_previous-keeps secret p id keys by_id e)

  add_previous-adds :
      (secret previous : String) (by_id : Table DerivedKeys)
      → find (derive_keys w secret).key_id by_id ≡ some (derive_keys w secret)
      → is_some (find (derive_keys w previous).key_id (add_previous w secret previous by_id)) ≡ true
  unfolding add_previous
  add_previous-adds secret previous by_id e = ground (
    arith,
    find-put_self (derive_keys w previous).key_id (derive_keys w previous) by_id,
    eq_iff previous secret,
  )

  add_all-adds :
      (secret : String) (previous : List String) (by_id : Table DerivedKeys)
      → find (derive_keys w secret).key_id by_id ≡ some (derive_keys w secret)
      → All
          (λ p. is_some (find (derive_keys w p).key_id (add_all w secret previous by_id)) ≡ true)
          previous
  unfolding add_all
  add_all-adds secret [] by_id e = tt
  add_all-adds secret (p ∷ previous) by_id e =
      let step = add_previous w secret p by_id in
      (
        stays (find (derive_keys w p).key_id step) refl (add_previous-adds secret p by_id e),
        add_all-adds secret previous step (
            add_previous-keeps secret p (derive_keys w secret).key_id (derive_keys w secret) by_id
              e),
      )
    where
      stays :
          (o : Option DerivedKeys)
          → find (derive_keys w p).key_id (add_previous w secret p by_id) ≡ o
          → is_some o ≡ true
          → is_some (
              find
                (derive_keys w p).key_id
                (add_all w secret previous (add_previous w secret p by_id)))
            ≡ true
      stays none e h = cc
      stays (some keys) e h = rw (
          add_all-keeps secret previous (derive_keys w p).key_id keys
            (add_previous w secret p by_id) e)

  -- The ring finds the current keys under their id, and has keys under the id of every previous
  -- secret.
  pub build_key_ring_finds :
      (secret : String) (previous : List String)
      → let ring = build_key_ring w secret previous in
        (ring.current ≡ derive_keys w secret)
        × (find ring.current.key_id ring.by_id ≡ some ring.current)
        × All (λ p. is_some (find (derive_keys w p).key_id ring.by_id) ≡ true) previous
  unfolding build_key_ring
  build_key_ring_finds secret previous =
      let keys = derive_keys w secret in
      let start = find-put_self keys.key_id keys [] in
      (
        refl,
        add_all-keeps secret previous keys.key_id keys (put keys.key_id keys []) start,
        add_all-adds secret previous (put keys.key_id keys []) start,
      )
