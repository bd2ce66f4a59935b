-- ===== src/Proxy/Forward.antt =====
-- hub/proxy/forwarder.py: what is sent to a user server for a request of a client, and what comes back.
-- The media type of a response and the texts of error messages are left out.
use Prim.Native.String.{len, slice}
use text.Mathlib.Text.{starts_with}
use artic_trader.Prelude.{
  ℕ, String, str_eq, Bool, false, ◌||◌, Option, none, some, List, [], ◌∷◌, ◌++◌, present,
  if◌then◌else◌,
}
use artic_trader.Dict.{Dict, put}
use artic_trader.Vm.State.{Hub}

abbrev pub Pairs : Type 0
Pairs = List (String × String)

pub record Request : Type 0 where
  pub method : String
  pub path : String
  pub query : Pairs
  pub headers : Pairs
  pub body : String

-- What `httpx` is given to send.
pub record Sent : Type 0 where
  pub method : String
  pub url : String
  pub content : String
  pub headers : Dict String
  pub params : Dict String

pub record Response : Type 0 where
  pub status_code : ℕ
  pub headers : Dict String
  pub content : String

pub record Upstream : Type 0 where
  pub status_code : ℕ
  pub headers : Pairs
  pub content : String

-- How a request over `httpx` ends.
pub data Answer : Type 0 where
  timed_out transport_error : Answer
  answered : Upstream → Answer

-- `settings`, the text functions of Python, the headers of Starlette, JWT, sha256, the chain and the
-- HTTP client.
pub record Outside (W : Type 0) : Type 0 where
  pub internal_secret : String
  pub lower : String → String
  -- s.rstrip("/")
  pub rstrip : String → String
  pub header : Pairs → String → Option String
  pub uuid4 : W → String × W
  pub send : Sent → W → Answer × W
  -- the body of an error, from its code and the request's id
  pub error_body : String → Option String → String
  -- the subject of a token, if it is valid at the time
  pub verify_jwt : String → W → Option String
  pub hash_api_key : String → String
  -- the balance of an address in wei, if the node answers
  pub get_balance : String → W → Option ℕ × W

-- The hub, and what its proxy has sent.
pub record Door (W : Type 0) : Type 0 where
  pub hub : Hub W
  pub sent : List Sent

abbrev pub hop_by_hop : List String
hop_by_hop =
    "connection" ∷ "keep-alive" ∷ "proxy-authenticate" ∷ "proxy-authorization" ∷ "te" ∷ "trailers"
    ∷ "transfer-encoding" ∷ "upgrade" ∷ "host" ∷ "content-length" ∷ []

abbrev pub stripped_request : List String
stripped_request = hop_by_hop ++ "authorization" ∷ "cookie" ∷ "x-api-key" ∷ []

-- k in keys
unfoldable pub is_in : String → List String → Bool
is_in k [] = false
is_in k (j ∷ keys) = str_eq k j || is_in k keys

-- "/api/v1/u"
abbrev pub proxy_prefix : String
proxy_prefix = "/api/v1/u"

abbrev or_root : Option String → String
or_root none = "/"
or_root (some s) = s

unfoldable pub rewrite_path : String → String
rewrite_path incoming_path =
    if starts_with incoming_path proxy_prefix
    then or_root (present (some (slice incoming_path (len proxy_prefix) (len incoming_path))))
    else incoming_path

-- dict(items)
unfoldable pub dict_of : Pairs → Dict String → Dict String
dict_of [] d = d
dict_of ((k, v) ∷ items) d = dict_of items (put d k v)

module _ {W : Type 0} (O : Outside W) where
  unfoldable pub add_kept : List String → Pairs → Dict String → Dict String
  add_kept dropped [] d = d
  add_kept dropped ((k, v) ∷ items) d =
      add_kept dropped items (if is_in (O.lower k) dropped then d else put d k v)

  unfoldable pub filter_headers : Pairs → List String → Dict String
  unfolding add_kept
  filter_headers items dropped = add_kept dropped items []

  abbrev pub error_response : ℕ → String → String → Response
  error_response status code request_id = record {
    status_code = status;
    headers = [];
    content = O.error_body code (some request_id);
  }

  abbrev pub given_or_new : Option String → W → String × W
  given_or_new (some request_id) w = (request_id, w)
  given_or_new none w = O.uuid4 w

  abbrev pub outgoing : Request → String → String → Sent
  outgoing request target_url request_id = record {
    method = request.method;
    url = target_url;
    content = request.body;
    headers =
        put (put (filter_headers request.headers stripped_request) "X-Hub-Secret" O.internal_secret)
          "X-Request-ID" request_id;
    params = dict_of request.query [];
  }

  abbrev pub response_of : String → Answer → Response
  response_of request_id timed_out = error_response 504 "UPSTREAM_TIMEOUT" request_id
  response_of request_id transport_error = error_response 502 "UPSTREAM_UNAVAILABLE" request_id
  response_of request_id (answered upstream) = record {
    status_code = upstream.status_code;
    headers = put (filter_headers upstream.headers hop_by_hop) "X-Request-ID" request_id;
    content = upstream.content;
  }

  unfoldable pub forward : Request → String → Door W → Response × Door W
  forward request target_url s =
      let (request_id, w) =
        given_or_new (present (O.header request.headers "X-Request-ID")) s.hub.world in
      let out = outgoing request target_url request_id in
      let (answer, w') = O.send out w in
      (
        response_of request_id answer,
        record s { hub = record s.hub { world = w' }; sent = s.sent ++ out ∷ [] },
      )
