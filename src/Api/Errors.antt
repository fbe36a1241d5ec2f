-- ===== src/Api/Errors.antt =====
-- api/errors.py: `RequestContextMiddleware` and the three exception handlers. `UUID(...)` with
-- `str` is a parameter that answers nothing for a text that is no UUID; `uuid4()` is an argument.
use rag_anotacoes_sdd.Prelude.{
  ℕ, not, Option, none, some, List, [], ◌∷◌, ◌++◌, map, select, codes, Error, ApiError, Item,
  api_error, request_invalid,
}
use rag_anotacoes_sdd.Text.{Text, text_eq}

pub record Envelope : Type 0 where
  pub code : Text
  pub message : Text
  pub request_id : Text
  pub field_errors : List (Text × Text)

pub record ErrorResponse : Type 0 where
  pub status_code : ℕ
  pub content : Envelope

-- `_envelope`: no `field_errors` stand in the envelope where the list is empty.
abbrev pub envelope : Text → Text → Text → List (Text × Text) → Envelope
envelope request_id code message field_errors = record {
  code = code;
  message = message;
  request_id = request_id;
  field_errors = field_errors;
}

-- `".".join(parts)`
unfoldable pub dotted : List Text → Text
dotted [] = []
dotted (p ∷ []) = p
dotted (p ∷ q ∷ ps) = p ++ 46 ∷ dotted (q ∷ ps)

unfoldable pub field_of : Item → Text × Text
unfolding dotted
field_of item = (dotted (select (λ part. not (text_eq part (codes "body"))) item.loc), item.msg)

unfoldable pub api_error_handler : Text → ApiError → ErrorResponse
api_error_handler request_id error = record {
  status_code = error.status_code;
  content = envelope request_id error.code error.message error.field_errors;
}

unfoldable pub validation_error_handler : Text → List Item → ErrorResponse
validation_error_handler request_id errors = record {
  status_code = 422;
  content =
      envelope request_id (codes "validation_error") (codes "A solicitação contém dados inválidos.")
        (map field_of errors);
}

unfoldable pub unexpected_error_handler : Text → ErrorResponse
unexpected_error_handler request_id = record {
  status_code = 500;
  content =
      envelope request_id (codes "internal_error")
        (codes "Não foi possível concluir a solicitação.") [];
}

-- The handler that is installed for the exception's class.
unfoldable pub error_response : Text → Error → ErrorResponse
error_response request_id (api_error error) = api_error_handler request_id error
error_response request_id (request_invalid errors) = validation_error_handler request_id errors
error_response request_id other = unexpected_error_handler request_id

abbrev or_fresh : Text → Option Text → Text
or_fresh fresh none = fresh
or_fresh fresh (some id) = id

-- The request identifier of `dispatch`.
unfoldable pub request_id_of : (Text → Option Text) → Text → Option Text → Text
request_id_of read_uuid fresh none = fresh
request_id_of read_uuid fresh (some []) = fresh
request_id_of read_uuid fresh (some (c ∷ candidate)) = or_fresh fresh (read_uuid (c ∷ candidate))

-- The headers that `dispatch` sets on the response of `call_next`.
unfoldable pub context_headers : Text → List (Text × Text)
context_headers request_id =
    (codes "X-Request-ID", request_id) ∷ (codes "Cache-Control", codes "no-store") ∷ []
