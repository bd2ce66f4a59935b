-- ===== src/Auth/Entitled.antt =====
-- What an accepted request of hub/auth/deps.py has shown, in terms of the tables and of the signature.
use Prim.Native.String.{◌++◌ as ◌<>◌}
use artic_trader.Prelude.{
  ℕ, ◌==◌, length, String, Bool, true, false, not, if◌then◌else◌, Option, none, some, List, [], ◌∷◌,
  ◌≡◌, refl, ◌∙◌, present, leb,
}
use mathlib.Core.Path.{subst}
use artic_trader.Prelude.Exec.{ok}
use artic_trader.Dict.{get}
use artic_trader.Auth.State.{ℤ, leb_ℤ, SessionKey, Db, Request, Outside}
use artic_trader.Auth.Session.{
  canonical_request, verify_session_signature, verify_decoded, true_or_false, get_current_user,
  Signed, require_session_key,
}
use artic_trader.Auth.Checks.{IsAuthorised, load_active_session-row}
use artic_trader.Auth.Replay.{require_session_key-IsAuthorised}

-- A JSON object without spaces, from its keys and the texts of its values.
unfoldable json_rest : List (String × String) → String
json_rest [] = "}"
json_rest ((k, v) ∷ fields) = (",\"" <> (k <> "\":")) <> (v <> json_rest fields)

unfoldable pub json_object : List (String × String) → String
unfolding json_rest
json_object [] = "{}"
json_object ((k, v) ∷ fields) = ("{\"" <> (k <> "\":")) <> (v <> json_rest fields)

-- What the client signs: the body by its hash, the method, the nonce, the path and the session.
abbrev pub signed_fields : Outside → Request → String → ℤ → List (String × String)
signed_fields O r session_id nonce =
    ("body_sha256", O.json_text (O.sha256_hex r.body))
    ∷ ("method", O.json_text (O.upper r.method))
    ∷ ("nonce", O.json_int nonce)
    ∷ ("path", O.json_text r.path)
    ∷ ("session_id", O.json_text session_id)
    ∷ []

canonical_request-json_object :
    (O : Outside) (r : Request) (id : String) (n : ℤ)
    → canonical_request O r.method r.path r.body id n ≡ json_object (signed_fields O r id n)
unfolding canonical_request json_object
canonical_request-json_object O r id n = refl

-- The signature of a text under a key, both in base64.
pub record IsSigned (O : Outside) (session_pub signature text : String) : Type 0 where
  pub pub_key : List ℕ
  pub sig : List ℕ
  pub key_text : O.b64decode session_pub ≡ some pub_key
  pub sig_text : O.b64decode signature ≡ some sig
  pub key_size : (length pub_key == 33) ≡ true
  pub sig_size : (length sig == 64) ≡ true
  pub verifies : O.verify_digest pub_key sig (O.sha256_digest text) ≡ some true

tests :
    (a b : Bool) (o : Option Bool)
    → (if not a then false else if not b then false else true_or_false o) ≡ true
    → (a ≡ true) × (b ≡ true) × (o ≡ some true)
tests false b o h = cc
tests true false o h = cc
tests true true none h = cc
tests true true (some false) h = cc
tests true true (some true) h = (refl, refl, refl)

verify-IsSigned :
    (O : Outside) (session_pub text signature : String)
    → verify_session_signature O session_pub text signature ≡ true
    → IsSigned O session_pub signature text
unfolding verify_session_signature
verify-IsSigned O session_pub text signature e =
    decoded (O.b64decode session_pub) (O.b64decode signature) refl refl e
  where
    decoded :
        (a b : Option (List ℕ))
        → O.b64decode session_pub ≡ a
        → O.b64decode signature ≡ b
        → verify_decoded O a b text ≡ true
        → IsSigned O session_pub signature text
    decoded none b ea eb h = cc
    decoded (some k) none ea eb h = cc
    decoded (some k) (some g) ea eb h =
        let (ks, gs, v) = sizes k g h in
        record {
          pub_key = k;
          sig = g;
          key_text = ea;
          sig_text = eb;
          key_size = ks;
          sig_size = gs;
          verifies = v;
        }
      where
        sizes :
            (k g : List ℕ)
            → verify_decoded O (some k) (some g) text ≡ true
            → ((length k == 33) ≡ true)
              × ((length g == 64) ≡ true)
              × (O.verify_digest k g (O.sha256_digest text) ≡ some true)
        sizes k g h =
            tests (length k == 33) (length g == 64) (O.verify_digest k g (O.sha256_digest text)) h

-- The session is a row of the user's, neither revoked nor expired, whose key has signed the request, with
-- a nonce above the row's last.
pub record IsEntitled (O : Outside) (r : Request) (db : Db) (user_id : String) : Type 0 where
  pub known : get_current_user O db r ≡ ok user_id
  pub session_id : String
  pub row : SessionKey
  pub raw_nonce : String
  pub nonce : ℤ
  pub signature : String
  pub id_header : present r.session_id ≡ some session_id
  pub nonce_header : present r.raw_nonce ≡ some raw_nonce
  pub signature_header : present r.signature ≡ some signature
  pub number : O.int raw_nonce ≡ some nonce
  pub on_record : get db.sessions session_id ≡ some row
  pub owner : row.user_id ≡ user_id
  pub not_revoked : row.revoked_at ≡ none
  pub not_expired : leb row.expires_at r.now ≡ false
  pub above : leb_ℤ nonce row.last_nonce ≡ false
  pub signed :
      IsSigned O row.session_pub signature (json_object (signed_fields O r session_id nonce))

-- A request that is accepted names a session on record, of the user that its token or API key names,
-- neither revoked nor expired; the key of the session has signed the JSON object of the body's hash, the
-- method, the nonce, the path and the session; and the nonce is above the last of the session.
pub require_session_key-IsEntitled :
    (O : Outside) (r : Request) (db db' : Db) (u : String)
    → require_session_key O r db ≡ (ok u, db')
    → IsEntitled O r db u
require_session_key-IsEntitled O r db db' u e =
    let (s, (a, same, above)) = require_session_key-IsAuthorised O r db db' u e in
    entitled s a same above
  where
    entitled :
        (s : Signed)
        → IsAuthorised O r db s
        → s.user_id ≡ u
        → leb_ℤ s.nonce s.key.last_nonce ≡ false
        → IsEntitled O r db u
    entitled s a same above =
        let (there, (owner, revoked, expired)) =
          load_active_session-row db s.session_id s.user_id r.now s.key a.session in
        record {
          known = subst (λ x. get_current_user O db r ≡ ok x) same a.user;
          session_id = s.session_id;
          row = s.key;
          raw_nonce = a.raw_nonce;
          nonce = s.nonce;
          signature = a.signature;
          id_header = a.id;
          nonce_header = a.nonce_header;
          signature_header = a.signature_header;
          number = a.nonce;
          on_record = there;
          owner = owner ∙ same;
          not_revoked = revoked;
          not_expired = expired;
          above = above;
          signed =
              subst (IsSigned O s.key.session_pub a.signature)
                (canonical_request-json_object O r s.session_id s.nonce)
                (verify-IsSigned O s.key.session_pub _ a.signature a.verified);
        }
