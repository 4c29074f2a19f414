-- ===== src/Client/Uris.antt =====
-- The URI that CreateRequest parses.
use easy_http.Prelude.{ℕ, ◌≡◌, List, [], ◌∷◌, false, ◌⊎◌}
use easy_http.Bytes.{Bytes}
use easy_http.Outcome.{Outcome, ok, throw, undefined}
use easy_http.World.{World, M, ◌>>◌}
use easy_http.World.Calls.{Call, uri_free, uri_parse}
use easy_http.World.Count.{total}
use easy_http.World.Keeps.{Keeps}
use easy_http.World.Yields.{Yields}
use easy_http.World.External.{Platform}
use easy_http.RequestBase.{RequestBase}
use easy_http.Request.{Request}
use easy_http.Client.Requests
use easy_http.Client.{Client}

abbrev pub frees : Call → ℕ
frees (uri_free uri) = 1
frees _ = 0

-- How many URIs were freed.
abbrev pub uri_frees : List Call → ℕ
uri_frees calls = total frees calls

-- The URIs that were freed, the latest first.
unfoldable pub freed_uris : List Call → List ℕ
freed_uris [] = []
freed_uris (c ∷ calls) =
    let more = freed_uris calls in elim c as (λ x. List ℕ) [ uri_free uri ↦ uri ∷ more | _ ↦ more ]

module _ (pf : Platform) where
  -- The URI is one that libevent gave for a text.
  abbrev pub IsParsed : ℕ → Type 0
  IsParsed uri =
      (calls : List Call) × ((url : Bytes) × (uri ≡ pf.pointer calls (uri_parse url false)))

  module _ (uris : List ℕ) where
    abbrev Has : List Call → Type 0
    Has calls = freed_uris calls ≡ uris

    -- No more URIs were freed than these, or if the method threw, perhaps the one of its own request.
    abbrev Ends : Outcome Request × World → Type 0
    Ends (ok request, v) = Has v.calls
    Ends (throw e, v) =
        Has v.calls ⊎ ((own : ℕ) × (IsParsed own × (freed_uris v.calls ≡ own ∷ uris)))
    Ends (undefined, v) = Has v.calls

    abbrev EndsWell : M Request → Type 0
    EndsWell m = (w : World) → Has w.calls → Ends (m w)

  -- A path's URI is freed, whatever the end, and besides at most one after an exception.
  abbrev pub FreesPath : ℕ → World → Outcome Request × World → Type 0
  FreesPath uri w (ok request, v) = freed_uris v.calls ≡ uri ∷ freed_uris w.calls
  FreesPath uri w (throw e, v) =
      (freed_uris v.calls ≡ uri ∷ freed_uris w.calls)
      ⊎ ((own : ℕ) × (IsParsed own × (freed_uris v.calls ≡ own ∷ uri ∷ freed_uris w.calls)))
  FreesPath uri w (undefined, v) = freed_uris v.calls ≡ uri ∷ freed_uris w.calls
