-- ===== src/Auth/State.antt =====
-- The rows of hub/db/models/auth_session_key.py and user.py that authentication reads, its requests,
-- and what it uses from outside: JWT, hashing, base64, ECDSA and `int`.
use artic_trader.Prelude.{ℕ, String, Bool, true, false, Option, List, ◌≡◌, refl, leb, arith}
use artic_trader.Dict.{Dict}

pub data ℤ : Type 0 where
  pos negsuc : ℕ → ℤ

-- x <= y
abbrev pub leb_ℤ : ℤ → ℤ → Bool
leb_ℤ (pos a) (pos b) = leb a b
leb_ℤ (pos a) (negsuc b) = false
leb_ℤ (negsuc a) (pos b) = true
leb_ℤ (negsuc a) (negsuc b) = leb b a

pub leb_ℤ-trans : (x y z : ℤ) → leb_ℤ x y ≡ true → leb_ℤ y z ≡ true → leb_ℤ x z ≡ true
leb_ℤ-trans (pos a) (pos b) (pos c) h k = ground arith
leb_ℤ-trans (pos a) (pos b) (negsuc c) h k = k
leb_ℤ-trans (pos a) (negsuc b) z h k = cc
leb_ℤ-trans (negsuc a) y (pos c) h k = refl
leb_ℤ-trans (negsuc a) (pos b) (negsuc c) h k = cc
leb_ℤ-trans (negsuc a) (negsuc b) (negsuc c) h k = ground arith

pub leb_ℤ-total : (x y : ℤ) → leb_ℤ x y ≡ false → leb_ℤ y x ≡ true
leb_ℤ-total (pos a) (pos b) h = ground arith
leb_ℤ-total (pos a) (negsuc b) h = refl
leb_ℤ-total (negsuc a) (pos b) h = cc
leb_ℤ-total (negsuc a) (negsuc b) h = ground arith

pub leb_ℤ-refl : (x : ℤ) → leb_ℤ x x ≡ true
leb_ℤ-refl (pos a) = ground arith
leb_ℤ-refl (negsuc a) = ground arith

pub record SessionKey : Type 0 where
  pub user_id : String
  pub session_pub : String
  pub scope : String
  pub expires_at : ℕ
  pub last_nonce : ℤ
  pub revoked_at : Option ℕ

pub record Account : Type 0 where
  pub wallet_address : String
  pub wallet_chain : String
  pub api_key_hash : Option String

-- The tables, by the rows' ids.
pub record Db : Type 0 where
  pub users : Dict Account
  pub sessions : Dict SessionKey

-- A request: its headers, and the time at which it is served.
pub record Request : Type 0 where
  -- Authorization, with what follows "Bearer "
  pub bearer : Option String
  pub api_key : Option String
  pub session_id : Option String
  pub raw_nonce : Option String
  pub signature : Option String
  pub method : String
  pub path : String
  pub body : String
  pub now : ℕ

pub record HttpError : Type 0 where
  pub status_code : ℕ
  pub detail : String

pub record Outside : Type 0 where
  -- jwt.decode at a time: the user's id, or an exception
  pub verify_jwt : String → ℕ → Option String
  pub hash_api_key : String → String
  -- int(s)
  pub int : String → Option ℤ
  pub sha256_hex : String → String
  pub sha256_digest : String → List ℕ
  pub upper : String → String
  -- json.dumps of a text and of an int
  pub json_text : String → String
  pub json_int : ℤ → String
  pub b64decode : String → Option (List ℕ)
  -- VerifyingKey.verify_digest: the key, the signature and the digest; `none` for an exception other
  -- than `BadSignatureError`
  pub verify_digest : List ℕ → List ℕ → List ℕ → Option Bool
  -- secrets.token_urlsafe
  pub token : ℕ → String
