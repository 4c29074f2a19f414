-- ===== src/EvRequest/Agreement/Getters.antt =====
-- The loops and the switch of the getters of src/ev_request.cpp, next to those of
-- src/request_base.cpp.
use easy_http.Prelude.{
  ◌≡◌, refl, List, [], ◌∷◌, ◌-◌, length, take, true, Bool-cases, Option-cases, inl, inr,
}
use easy_http.Bytes.{Bytes, c_str}
use easy_http.ParamList.{ParamList, find, insert}
use easy_http.World.Calls.{
  CmdType, req_get, req_post, req_head, req_put, req_delete, req_options, req_trace, req_connect,
  req_patch, req_other,
}
use easy_http.World.External.{Platform}
use easy_http.Values
use easy_http.Queries
use easy_http.RequestBase
use easy_http.RequestBase.Fields
use easy_http.EvRequest.Fields as Old

pub method_of_cmd-agrees : (c : CmdType) → Old.method_of_cmd c ≡ Fields.method_of_cmd c
unfolding Old.method_of_cmd Fields.method_of_cmd
method_of_cmd-agrees req_get = refl
method_of_cmd-agrees req_post = refl
method_of_cmd-agrees req_head = refl
method_of_cmd-agrees req_put = refl
method_of_cmd-agrees req_delete = refl
method_of_cmd-agrees req_options = refl
method_of_cmd-agrees req_trace = refl
method_of_cmd-agrees req_connect = refl
method_of_cmd-agrees req_patch = refl
method_of_cmd-agrees (req_other n) = refl

pub to_lower-agrees : (str : Bytes) → Old.to_lower str ≡ Values.to_lower str
unfolding Old.to_lower Old.to_lower_byte Values.to_lower Values.to_lower_byte
to_lower-agrees str = refl

pub collect_headers-agrees :
    (list : ParamList) (hs : List (Bytes × Bytes))
    → Old.collect_headers list hs ≡ RequestBase.collect_headers list hs
unfolding Old.collect_headers RequestBase.collect_headers
collect_headers-agrees list [] = refl
collect_headers-agrees list ((key, value) ∷ hs) =
    rw (to_lower-agrees key) (collect_headers-agrees (insert (Values.to_lower key) value list) hs)

add_param-agrees :
    (key value : Bytes) (list : ParamList)
    → Old.add_param key value list ≡ Queries.add_param key value list
unfolding Old.add_param Queries.add_param Old.is_array Queries.is_array
add_param-agrees key value list = elim (Bool-cases (Queries.is_array key)) [
  | inl e ↦ elim (Option-cases (find (take (length key - 2) key) list)) [
    | inl h ↦ rw (e, h) refl
    | inr (old, h) ↦ rw (e, h) refl
  ]
  | inr e ↦ rw e refl
]

module _ (pf : Platform) where
  pub add_matches-agrees :
      (list : ParamList) (ms : List (Bytes × Bytes))
      → Old.add_matches pf list ms ≡ Queries.add_matches pf list ms
  unfolding Old.add_matches Queries.add_matches Queries.decode
  add_matches-agrees list [] = refl
  add_matches-agrees list ((k, v) ∷ ms) = elim (Option-cases (pf.uridecode (c_str k) true)) [
    | inl e ↦ rw (e, Old.add_matches, Queries.add_matches) refl
    | inr (key, e) ↦ elim (Option-cases (pf.uridecode (c_str v) true)) [
      | inl h ↦ rw (e, h, Old.add_matches, Queries.add_matches) refl
      | inr (value, h) ↦
          rw
            (
              e,
              h,
              Old.add_matches,
              Queries.add_matches,
              add_param-agrees (c_str key) (c_str value) list,
            )
            (add_matches-agrees (Queries.add_param (c_str key) (c_str value) list) ms)
    ]
  ]
