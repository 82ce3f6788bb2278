-- ===== src/Examples/Headers.antt =====
-- The interceptor on a metadata map that is a list of entries.
use text.Mathlib.Text.{◌==◌}
use etcd_client.Prelude.{true, some, ◌&&◌, ◌≡◌, String, List, [], ◌∷◌, ◌++◌, if◌then◌else◌, arith}
use etcd_client.Intercept.{MetadataMap, Request, call, token_header, require_leader_key}
use etcd_client.Intercept.Headers.{IsMultimap, call_headers, takes_token, to_list}

abbrev get_all : String → List (String × String) → List String
get_all key [] = []
get_all key ((k, v) ∷ entries) =
    let rest = get_all key entries in if k == key then v ∷ rest else rest

abbrev pub entries : MetadataMap String
entries = record {
  Map = List (String × String);
  append = λ k v m. m ++ (k, v) ∷ [];
  get_all = get_all;
}

get_all-append :
    (k j v : String) (m : List (String × String))
    → get_all j (m ++ (k, v) ∷ []) ≡ (if k == j then get_all j m ++ v ∷ [] else get_all j m)
get_all-append k j v [] = ground arith
get_all-append k j v ((i, w) ∷ m) = ground (arith, get_all-append k j v m)

pub entries-IsMultimap : IsMultimap entries
entries-IsMultimap = record { get_all-append = get_all-append }

-- A request of `Put` that has a header already.
abbrev put_request : Request (List (String × String))
put_request = record {
  grpc_method = some ("etcdserverpb.KV", "Put");
  metadata = ("user-agent", "etcd") ∷ [];
}

call_headers_example :
    entries.get_all token_header (call entries "true" true (some "seven") put_request).metadata
    ≡ (entries.get_all token_header put_request.metadata
        ++ (if token_header == token_header && takes_token put_request.grpc_method
            then to_list (some "seven")
            else []))
      ++ (if require_leader_key == token_header && true then "true" ∷ [] else [])
call_headers_example =
    call_headers entries entries-IsMultimap "true" true (some "seven") put_request token_header
