-- ===== src/Request/Params.antt =====
-- The parameters that PushParam puts into the URL of a request.
use easy_http.Prelude.{ℕ, ◌≡◌, List, ◌∷◌, some, All}
use easy_http.Bytes.{Bytes}
use easy_http.Outcome.{ok}
use easy_http.ParamList.{ParamList}
use easy_http.ParamList.Laws.{IsSorted}
use easy_http.World.{World, continue, lift}
use easy_http.World.Calls.{Call, uri_set_query}
use easy_http.World.External.{Platform}
use easy_http.Queries.{queries}
use easy_http.Queries.Texts.{IsCodec, IsParam, IsQueryText, IsQueryText-IsCText, c_str_whole}
use easy_http.Queries.RoundTrip.{parse_query-render}
use easy_http.Request.{Request, push_params}

-- What libevent documents of evhttp_uri_set_query: a query of characters that a query may hold is
-- the URI's query once it is set.
pub record KeepsQuery (pf : Platform) : Type 0 where
  pub query_set :
      (calls : List Call) (uri : ℕ) (query : Bytes)
      → IsQueryText query
      → pf.uri_query (uri_set_query uri query ∷ calls) uri ≡ some query

module _ (pf : Platform) (encoded : Bytes → Bytes) (codec : IsCodec pf encoded)
    (keeps : KeepsQuery pf) where
  -- After PushParam of a map of parameters, Queries() of the request returns just that map, if no
  -- key is empty or marked as an array and no text holds a NUL.
  pub queries-push_params :
      (self : Request) (ps : ParamList) (w : World)
      → IsSorted ps
      → All IsParam ps
      → (w' : World) × (push_params pf ps self w ≡ (ok tt, w'))
        × (queries pf self.base.e_uri w' ≡ (ok ps, w'))
  unfolding push_params queries
  queries-push_params self ps w s h =
      let (query, is_query, rendered, parsed) = parse_query-render pf encoded codec ps s h in
      let set = keeps.query_set w.calls self.base.e_uri query is_query in
      let whole = c_str_whole query (IsQueryText-IsCText query is_query) in
      (
        record w { calls = uri_set_query self.base.e_uri query ∷ w.calls },
        rw (rendered, lift, continue, whole),
        rw (set, parsed),
      )
