-- ===== src/Proxy/Stripped.antt =====
-- The headers that hub/proxy/forwarder.py sends.
use mathlib.Core.Path.{subst}
use artic_trader.Prelude.{
  String, Bool, false, Bool-cases, Option, some, List, [], ◌∷◌, ◌≡◌, ◌≢◌, inl, inr, arith,
  if◌then◌else◌, eq_iff,
}
use artic_trader.Dict.{Dict, get, put, get-put, get-empty}
use artic_trader.Proxy.Forward.{
  Pairs, Request, Outside, stripped_request, is_in, add_kept, filter_headers, outgoing,
}

module _ {W : Type 0} (O : Outside W) where
  -- Of the client's headers none that is to be stripped is left: what there is of those is the hub's.
  abbrev pub IsStripped : Dict String → Type 0
  IsStripped d =
      (k v : String)
      → get d k ≡ some v
      → k ≢ "X-Hub-Secret"
      → k ≢ "X-Request-ID"
      → is_in (O.lower k) stripped_request ≡ false

  add_kept-clean :
      (dropped : List String) (items : Pairs) (d : Dict String)
      → ((k v : String) → get d k ≡ some v → is_in (O.lower k) dropped ≡ false)
      → (k v : String) → get (add_kept O dropped items d) k ≡ some v
      → is_in (O.lower k) dropped ≡ false
  unfolding add_kept
  add_kept-clean dropped [] d clean k v e = clean k v e
  add_kept-clean dropped ((j, w) ∷ items) d clean k v e =
      elim (Bool-cases (is_in (O.lower j) dropped)) [
        | inl there ↦
            add_kept-clean dropped items d clean k v (subst (λ b. after b ≡ some v) there e)
        | inr fresh ↦
            add_kept-clean dropped items (put d j w)
              (λ k' v' e'. ground (arith, get-put d j k' w, eq_iff j k', fresh, clean k' v', e')) k
              v (subst (λ b. after b ≡ some v) fresh e)
      ]
    where
      after : Bool → Option String
      after b = get (add_kept O dropped items (if b then d else put d j w)) k

  pub outgoing-IsStripped :
      (request : Request) (url id : String) → IsStripped (outgoing O request url id).headers
  unfolding filter_headers
  outgoing-IsStripped request url id k v e n m =
      add_kept-clean stripped_request request.headers []
        (λ k v e. ground (arith, get-empty {V = String} k, e)) k v kept
    where
      base : Dict String
      base = filter_headers O request.headers stripped_request

      kept : get base k ≡ some v
      kept = ground (
        arith,
        e,
        n,
        m,
        get-put (put base "X-Hub-Secret" O.internal_secret) "X-Request-ID" k id,
        get-put base "X-Hub-Secret" k O.internal_secret,
        eq_iff "X-Hub-Secret" k,
        eq_iff "X-Request-ID" k,
      )

  pub outgoing-secret :
      (request : Request) (url id : String)
      → get (outgoing O request url id).headers "X-Hub-Secret" ≡ some O.internal_secret
  outgoing-secret request url id =
      let base = filter_headers O request.headers stripped_request in
      ground (
        arith,
        get-put (put base "X-Hub-Secret" O.internal_secret) "X-Request-ID" "X-Hub-Secret" id,
        get-put base "X-Hub-Secret" "X-Hub-Secret" O.internal_secret,
      )
