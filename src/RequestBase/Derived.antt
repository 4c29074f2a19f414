-- ===== src/RequestBase/Derived.antt =====
-- The template RequestBaseAbstract<T> of include/easy_http/request_base.h: the setters of a class T
-- derived from RequestBase, which return the derived object.
use easy_http.Prelude.{Option}
use easy_http.Bytes.{Bytes}
use easy_http.ParamList.{ParamList}
use easy_http.World.{M, ◌>>◌, pure}
use easy_http.World.External.{Platform}
use easy_http.RequestBase.{RequestBase, ChunkCallback, set_chunk_callback}
use easy_http.RequestBase.Headers.{push_header, push_headers}
use easy_http.Request.{Request}
use easy_http.Response.{Response}
use easy_http.RequestBase.Content.{set_content, set_file_content}

-- The part of an object of T that is the RequestBase, and the object with another such part.
pub record Derived (T : Type 0) : Type 0 where
  pub base_of : T → RequestBase
  pub with_base : RequestBase → T → T

-- `class Request: public RequestBaseAbstract<Request>` and `class Response`
abbrev pub derived_request : Derived Request
derived_request = record {
  base_of = λ self. self.base;
  with_base = λ base self. record self { base = base };
}

abbrev pub derived_response : Derived Response
derived_response = record {
  base_of = λ self. self.base;
  with_base = λ base self. record self { base = base };
}

module _ (T : Type 0) (derived : Derived T) (pf : Platform) where
  -- SetContent of a string and of a vector of char
  unfoldable pub derived_set_content : Bytes → T → M T
  derived_set_content content self = set_content pf (derived.base_of self) content >> pure self

  unfoldable pub derived_set_file_content : Bytes → T → M T
  derived_set_file_content file_path self =
      set_file_content pf (derived.base_of self) file_path >> pure self

  unfoldable pub derived_push_header : Bytes → Bytes → T → M T
  derived_push_header key value self = push_header pf (derived.base_of self) key value >> pure self

  unfoldable pub derived_push_headers : ParamList → T → M T
  derived_push_headers headers self = push_headers pf (derived.base_of self) headers >> pure self

  unfoldable pub derived_set_chunk_callback : Option ChunkCallback → T → T
  derived_set_chunk_callback func self =
      derived.with_base (set_chunk_callback func (derived.base_of self)) self
