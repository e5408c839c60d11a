-- ===== src/Client/Request.antt =====
-- ayane-cli/src/cmd/mod.rs: how a request fails, and the chain that is written.
use ayane.Base.{
  ℕ, String, Bool, true, false, ◌||◌, ◌&&◌, Option, none, some, List, [], ◌∷◌, ◌++◌, leb, ltb,
  nat_eq, if◌then◌else◌, unwrap_or,
}
use ayane.Error.{ProblemDetails}
use ayane.San.{Bytes}
use ayane.Ca.Serial.{Text}
use ayane.Service.{CertificateResponse}
use ayane.Service.Revoke.{chars}

pub data RequestError : Type 0 where
  transport : String → RequestError
  status : ℕ → String → RequestError
  decode : String → RequestError

abbrev pub is_server_error : ℕ → Bool
is_server_error s = leb 500 s && ltb s 600

abbrev pub is_success : ℕ → Bool
is_success s = leb 200 s && ltb s 300

unfoldable pub is_transient : RequestError → Bool
is_transient (transport e) = true
is_transient (decode e) = false
is_transient (status s message) = is_server_error s || nat_eq s 429

pub data Answer (A : Type 0) : Type 0 where
  ok : A → Answer A
  err : RequestError → Answer A

-- what arrives: no answer, or a status and a body, which may break off
pub data Response : Type 0 where
  unreachable : String → Response
  arrived : ℕ → Response
  with_body : ℕ → Bytes → Response

-- serde_json on bodies, and a body as text
pub record Bodies : Type 0 where
  pub problem_from_slice : Bytes → Option ProblemDetails
  pub certificate_from_slice : Bytes → Option CertificateResponse
  pub from_utf8_lossy : Bytes → String

module _ (J : Bodies) where
  unfoldable pub message_of : Bytes → String
  message_of bytes = elim (J.problem_from_slice bytes) [
    | some problem ↦ unwrap_or problem.detail problem.title
    | none ↦ J.from_utf8_lossy bytes
  ]

  -- `deserialize_response_typed`, with the transport's failures of `post_json_typed`
  unfoldable pub deserialize_response_typed : Response → Answer CertificateResponse
  deserialize_response_typed (unreachable e) = err (transport e)
  deserialize_response_typed (arrived s) = err (transport "body")
  deserialize_response_typed (with_body s bytes) =
      if is_success s
      then elim (J.certificate_from_slice bytes) [
        | some response ↦ ok response
        | none ↦ err (decode "body")
      ]
      else err (status s (message_of bytes))

abbrev pub newline : ℕ
newline = 10

unfoldable pub ends_with_newline : Text → Bool
ends_with_newline [] = false
ends_with_newline (x ∷ []) = nat_eq x newline
ends_with_newline (x ∷ y ∷ text) = ends_with_newline (y ∷ text)

unfoldable pub push_line : Text → Text
push_line text = if ends_with_newline text then text else text ++ newline ∷ []

unfoldable pub push_chain : Text → List String → Text
push_chain out [] = out
push_chain out (cert ∷ chain) = push_chain (out ++ push_line (chars cert)) chain

unfoldable pub fullchain : CertificateResponse → Text
fullchain resp = push_chain (push_line (chars resp.certificate)) resp.chain
