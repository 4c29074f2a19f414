-- ===== src/EvRequest/Agreement.antt =====
-- EvRequest and RequestBase, where they do the same.
pub mod Sending
pub mod Getters
use mathlib.Core.Path.{subst}
use easy_http.Prelude.{◌≡◌, refl, ap, [], Option, none, some, Bool-cases, Option-cases, inl, inr}
use easy_http.Prelude.Int.{ℤ, pos, ltb_ℤ}
use easy_http.Bytes.{Bytes, is_empty}
use easy_http.Outcome.{Outcome, ok, throw, undefined}
use easy_http.World.{World, continue}
use easy_http.World.External.{Platform}
use easy_http.Values
use Getters.{method_of_cmd-agrees, collect_headers-agrees, add_matches-agrees}
use easy_http.Utils.{open_file}
use easy_http.Queries
use easy_http.RequestBase
use easy_http.RequestBase.Fields
use easy_http.RequestBase.Content
use easy_http.RequestBase.Headers
use easy_http.EvRequest.{EvRequest}
use easy_http.EvRequest.Fields as Old
use easy_http.EvRequest.Content as OldContent

content_types-agree : OldContent.content_types ≡ Content.content_types
unfolding OldContent.content_types Content.content_types
content_types-agree = refl

module _ (pf : Platform) where
  -- The getters of both give the same, and both set content and files in the same way.
  abbrev pub Agrees : RequestBase.RequestBase → EvRequest → Type 0
  Agrees self old =
      (w : World)
      → (Old.method pf old w ≡ Fields.method pf self w)
        × (Old.full_url pf old w ≡ Fields.full_url pf self w)
        × (Old.queries pf old w ≡ Queries.queries pf self.e_uri w)
        × (Old.headers pf old w ≡ RequestBase.headers pf self.e_request w)
        × (Old.connection_port pf old w ≡ Fields.connection_port pf self w)
        × ((content : Bytes)
            → OldContent.set_content pf old content w ≡ Content.set_content pf self content w)
        × ((file_path : Bytes)
            → OldContent.set_file_content pf old file_path w
              ≡ Content.set_file_content pf self file_path w)

  module _ (old : EvRequest) (self : RequestBase.RequestBase) where
    -- The EvRequest with the pointers of the other one.
    abbrev twin : EvRequest
    twin = record old { e_request = self.e_request; e_uri = self.e_uri }

    push_content_type-agrees :
        (mime : Option Bytes) (w : World)
        → OldContent.push_content_type pf twin mime w ≡ Content.push_content_type pf self mime w
    unfolding OldContent.push_content_type Content.push_content_type OldContent.push_header
        Headers.push_header Old.to_lower Old.to_lower_byte Values.to_lower Values.to_lower_byte
    push_content_type-agrees none w = refl
    push_content_type-agrees (some mime) w = refl

    add_opened-agrees :
        (file_path : Bytes) (opened : ℤ × ℤ) (w : World)
        → OldContent.add_opened pf twin file_path opened w
          ≡ Content.add_opened pf self file_path opened w
    unfolding OldContent.add_opened Content.add_opened OldContent.add_file Content.add_file
    add_opened-agrees file_path opened w = elim (Bool-cases (ltb_ℤ (pos 0) opened.0)) [
      | inl e ↦ rw (e, content_types-agree, push_content_type-agrees)
      | inr e ↦ rw e
    ]

    after_open-agrees :
        (file_path : Bytes) (r : Outcome (ℤ × ℤ) × World)
        → continue (OldContent.add_opened pf twin file_path) r
          ≡ continue (Content.add_opened pf self file_path) r
    after_open-agrees file_path (ok opened, w) = add_opened-agrees file_path opened w
    after_open-agrees file_path (throw e, w) = refl
    after_open-agrees file_path (undefined, w) = refl

    set_file_content-agrees :
        (file_path : Bytes) (w : World)
        → OldContent.set_file_content pf twin file_path w
          ≡ Content.set_file_content pf self file_path w
    unfolding OldContent.set_file_content Content.set_file_content
    set_file_content-agrees file_path w = elim (Bool-cases (is_empty file_path)) [
      | inl e ↦ rw e
      | inr e ↦ rw e (after_open-agrees file_path (open_file pf file_path w))
    ]

    queries-agrees : (w : World) → Old.queries pf twin w ≡ Queries.queries pf self.e_uri w
    unfolding Old.queries Queries.queries Queries.parse_query
    queries-agrees w = elim (Option-cases (pf.uri_query w.calls self.e_uri)) [
      | inl e ↦ rw (e, Old.queries) refl
      | inr (query, e) ↦ rw (e, Old.queries) (ap (λ r. (r, w)) (add_matches-agrees pf [] _))
    ]

    twin-Agrees : Agrees self twin
    unfolding Old.method Fields.method Old.full_url Fields.full_url Old.headers RequestBase.headers
        Old.connection_port Fields.connection_port OldContent.set_content Content.set_content
    twin-Agrees w = (
      ap (λ m. (ok m, w)) (method_of_cmd-agrees _),
      refl,
      queries-agrees w,
      ap (λ list. (ok list, w))
          (collect_headers-agrees [] (pf.input_headers w.calls self.e_request)),
      refl,
      λ content. refl,
      λ file_path. set_file_content-agrees file_path w,
    )

    -- For the same libevent request and URI, an EvRequest and a RequestBase give the same method, full
    -- URL, queries, headers and port of the peer; and both set content and files in the same way.
    pub agrees : old.e_request ≡ self.e_request → old.e_uri ≡ self.e_uri → Agrees self old
    agrees same_request same_uri =
        let same_object : twin ≡ old = cc in subst (Agrees self) same_object twin-Agrees
