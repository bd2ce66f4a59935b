-- ===== src/Auth/Once.antt =====
-- What a wallet sign-in of hub/auth/router.py spends, and what it leaves.
use artic_trader.Prelude.{
  ℕ, ◌+◌, ltb, String, true, false, Option, none, some, ◌≡◌, ◌≢◌, refl, sym, ◌∙◌, ap, Bool-cases,
  inl, inr, str_eq, eq_iff, arith, leb,
}
use mathlib.Core.Path.{subst}
use artic_trader.Prelude.Exec.{Result, ok, err}
use artic_trader.Prelude.Results.{Returns, Returns-bind, Returns-any}
use artic_trader.Dict.{Dict, get, get-put, get-modify}
use artic_trader.Vm.Provider.{Provider, Settings}
use artic_trader.Vm.Registry.Agree.{IsSynced}
use artic_trader.Vm.Service.Sync.{provision-IsSynced}
use artic_trader.Auth.State.{HttpError}
use artic_trader.Auth.Session.{http, required, is_none}
use artic_trader.Auth.Checks.{required-some}
use artic_trader.Auth.Replay.{one, no_clash}
use artic_trader.Auth.SignIn.{
  AuthNonce, SignInDb, VerifyRequest, Draws, Wallets, Verified, includes, guard, usable, verifies,
  build_signin_message, check_answer, use_nonce, signed_in, answered, verify_signature, issue_nonce,
}

-- The challenge has been answered.
pub record IsUsed (nonce : String) (nonces : Dict AuthNonce) : Type 0 where
  pub row : AuthNonce
  pub there : get nonces nonce ≡ some row
  pub used : is_none row.used_at ≡ false

-- Challenges and sign-ins, one after another. A new challenge has a new nonce.
pub data Afterwards {W : Type 0} (p : Provider W) (c : Settings) (X : Wallets) (s : SignInDb W)
    : SignInDb W → Type 0 where
  no_time : Afterwards p c X s s
  issued :
      {s' : SignInDb W} (address chain nonce : String) (now : ℕ)
      → get s'.nonces nonce ≡ none
      → Afterwards p c X s s'
      → Afterwards p c X s (issue_nonce X address chain nonce now s').1
  answered_by :
      {s' : SignInDb W} (q : VerifyRequest) (t : Draws)
      → Afterwards p c X s s'
      → Afterwards p c X s (verify_signature p c X q t s').1

-- A nonce that is usable has a row that is not used.
usable-row :
    (q : VerifyRequest) (now : ℕ) (o : Option AuthNonce) (n : AuthNonce)
    → usable q now o ≡ some n
    → (o ≡ some n) × (is_none n.used_at ≡ true)
usable-row q now none n e = cc
usable-row q now (some m) n e =
    let (unused, same) = tests m e in
    subst (λ x. (some m ≡ some x) × (is_none x.used_at ≡ true)) same (refl, unused)
  where
    tests : (m : AuthNonce) → usable q now (some m) ≡ some n → (is_none m.used_at ≡ true) × (m ≡ n)
    tests m e = ground (arith, e)

use_nonce-IsUsed :
    (nonces : Dict AuthNonce) (nonce : String) (now : ℕ) (n : AuthNonce)
    → get nonces nonce ≡ some n
    → IsUsed nonce (use_nonce nonces nonce now)
use_nonce-IsUsed nonces nonce now n there = record {
  row = record n { used_at = some now };
  there = ground (
    arith,
    get-modify nonces nonce nonce (λ k. record k { used_at = some now }),
    eq_iff nonce nonce,
    there,
  );
  used = refl;
}

-- Another answer leaves it used.
use_nonce-keeps :
    (nonces : Dict AuthNonce) (other nonce : String) (now : ℕ)
    → IsUsed nonce nonces
    → IsUsed nonce (use_nonce nonces other now)
use_nonce-keeps nonces other nonce now u = elim (Bool-cases (str_eq other nonce)) [
  | inl e ↦ record {
    row = record (u.row) { used_at = some now };
    there =
        ground
          (arith, get-modify nonces other nonce (λ k. record k { used_at = some now }), e, u.there);
    used = refl;
  }
  | inr e ↦ record {
    row = u.row;
    there =
        ground
          (arith, get-modify nonces other nonce (λ k. record k { used_at = some now }), e, u.there);
    used = u.used;
  }
]

module _ {W : Type 0} (X : Wallets) where
  -- The challenge that an answer is for.
  abbrev Open : VerifyRequest → SignInDb W → Type 0
  Open q s = (row : AuthNonce) × (get s.nonces q.nonce ≡ some row) × (is_none row.used_at ≡ true)

  check_answer-Open :
      (q : VerifyRequest) (t : Draws) (s : SignInDb W)
      → Returns (λ expires. Open q s) (check_answer X q t s)
  unfolding check_answer
  check_answer-Open q t s =
      let P = λ (expires : ℕ). Open q s in
      Returns-any P (guard (includes X.supported q.chain) 400 "Unsupported chain") _ (λ c.
        Returns-bind _ P
          (required (usable q t.at_nonce (get s.nonces q.nonce))
            (http 401 "Invalid or expired nonce"))
          _ (required-some _ _)
          (λ row h.
            Returns-any P
              (required (X.fromisoformat q.session_expires_at)
                (http 400 "Invalid session_expires_at"))
              _
              (λ expires.
                Returns-any P (guard (ltb t.at_expiry expires) 400 "session_expires_at in the past")
                  _
                  (λ f.
                    Returns-any P
                      (guard (leb expires (t.at_limit + X.session_ttl)) 400
                        "session_expires_at exceeds max")
                      _
                      (λ g.
                        Returns-any P
                          (guard
                            (verifies (X.get_verifier q.chain) q (
                              build_signin_message X q.chain q.address q.nonce q.session_pub
                                q.session_scope (X.isoformat row.created_at) q.session_expires_at))
                            401 "Signature verification failed")
                          (λ v. ok expires)
                          (λ v. (
                            row,
                            (usable-row q t.at_nonce (get s.nonces q.nonce) row h).0,
                            (usable-row q t.at_nonce (get s.nonces q.nonce) row h).1,
                          )))))))

module _ {W : Type 0} (p : Provider W) (c : Settings) (X : Wallets) where
  answered-IsUsed :
      (q : VerifyRequest) (t : Draws) (s : SignInDb W) (nonce : String) (r : Result HttpError ℕ)
      → IsUsed nonce s.nonces
      → IsUsed nonce (answered p c X q t r s).1.nonces
  unfolding signed_in
  answered-IsUsed q t s nonce (err e) u = u
  answered-IsUsed q t s nonce (ok expires) u = use_nonce-keeps s.nonces q.nonce nonce t.at_use u

  issue-IsUsed :
      (address chain new nonce : String) (now : ℕ) (s : SignInDb W)
      → get s.nonces new ≡ none
      → IsUsed nonce s.nonces
      → IsUsed nonce (issue_nonce X address chain new now s).1.nonces
  unfolding issue_nonce
  issue-IsUsed address chain new nonce now s free u =
      elim (Bool-cases (includes X.supported chain)) [
        | inl e ↦ rw e (record {
          row = u.row;
          there = ground (
            arith,
            get-put s.nonces new nonce (record {
              address = address;
              chain = chain;
              expires_at = now + X.nonce_ttl;
              used_at = none;
              created_at = now;
            }),
            eq_iff new nonce,
            free,
            u.there,
          );
          used = u.used;
        })
        | inr e ↦ rw e u
      ]

  Afterwards-IsUsed :
      (nonce : String) (s s' : SignInDb W)
      → Afterwards p c X s s'
      → IsUsed nonce s.nonces
      → IsUsed nonce s'.nonces
  unfolding verify_signature
  Afterwards-IsUsed nonce s _ no_time u = u
  Afterwards-IsUsed nonce s _ (issued {s' = mid} address chain new now free a) u =
      issue-IsUsed address chain new nonce now mid free (Afterwards-IsUsed nonce s mid a u)
  Afterwards-IsUsed nonce s _ (answered_by {s' = mid} q t a) u =
      answered-IsUsed q t mid nonce (check_answer X q t mid) (Afterwards-IsUsed nonce s mid a u)

  spends :
      (q : VerifyRequest) (t : Draws) (s : SignInDb W) (r : Result HttpError ℕ) (v : Verified)
      → Returns (λ expires. Open X q s) r
      → (answered p c X q t r s).0 ≡ ok v
      → IsUsed q.nonce (answered p c X q t r s).1.nonces
  unfolding signed_in
  spends q t s (err e) v o h = elim (failed h) [ ]
    where
      failed : err e ≢ ok v
      failed x = cc
  spends q t s (ok expires) v (row, there, unused) h =
      use_nonce-IsUsed s.nonces q.nonce t.at_use row there

  refused_if_used :
      (q : VerifyRequest) (t : Draws) (s : SignInDb W) (r : Result HttpError ℕ) (v : Verified)
      → Returns (λ expires. Open X q s) r
      → IsUsed q.nonce s.nonces
      → (answered p c X q t r s).0 ≢ ok v
  refused_if_used q t s (err e) v o u h = failed h
    where
      failed : err e ≢ ok v
      failed x = cc
  refused_if_used q t s (ok expires) v (row, there, unused) u h =
      no_clash (sym u.used ∙ ap (λ n. is_none n.used_at) (one (sym u.there ∙ there)) ∙ unused)

  -- A challenge is answered once: after a sign-in with a nonce, no later sign-in with that nonce
  -- succeeds, for any wallet, signature and time, whatever challenges and sign-ins are served between.
  pub verify_signature-once :
      (q q' : VerifyRequest) (t t' : Draws) (s s' s'' : SignInDb W) (v v' : Verified)
      → verify_signature p c X q t s ≡ (ok v, s')
      → Afterwards p c X s' s''
      → q'.nonce ≡ q.nonce
      → (verify_signature p c X q' t' s'').0 ≢ ok v'
  unfolding verify_signature
  verify_signature-once q q' t t' s s' s'' v v' e a n =
      refused_if_used q' t' s'' (check_answer X q' t' s'') v' (check_answer-Open X q' t' s'')
        used_there
    where
      used : IsUsed q.nonce s'.nonces
      used =
          subst (λ x. IsUsed q.nonce x.nonces) (ap (λ x. x.1) e)
            (spends q t s (check_answer X q t s) v (check_answer-Open X q t s) (ap (λ x. x.0) e))

      used_there : IsUsed q'.nonce s''.nonces
      used_there =
          subst (λ x. IsUsed x s''.nonces) (sym n) (Afterwards-IsUsed q.nonce s' s'' a used)

  answered-IsSynced :
      (q : VerifyRequest) (t : Draws) (s : SignInDb W) (r : Result HttpError ℕ)
      → IsSynced s.hub
      → IsSynced (answered p c X q t r s).1.hub
  unfolding signed_in
  answered-IsSynced q t s (err e) h = h
  answered-IsSynced q t s (ok expires) h = provision-IsSynced p c _ s.hub h

  -- A sign-in keeps the registry of machines in step with their table, whether it succeeds or not, for
  -- a new user and for one that is there.
  pub verify_signature-IsSynced :
      (q : VerifyRequest) (t : Draws) (s : SignInDb W)
      → IsSynced s.hub
      → IsSynced (verify_signature p c X q t s).1.hub
  unfolding verify_signature
  verify_signature-IsSynced q t s h = answered-IsSynced q t s (check_answer X q t s) h
