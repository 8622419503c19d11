-- ===== src/Prowlarr/Http.antt =====
-- internal/prowlarr/registration.go: the HTTP helpers for applications. `http.Client.Do`, the check of a URL
-- in `http.NewRequestWithContext`, and the JSON encoder and decoder are parameters.
use nebularr_operator.Common.{
  String, ◌<>◌, ◌==◌, string_eq, int_eq, if◌then◌else◌, ◌||◌, ℤ, pos, Option, none, some, List, [],
  ◌∷◌, Result, ok, err, decimal_int,
}
use nebularr_operator.Common.Dict.{Dict}
use nebularr_operator.Prowlarr.{ProwlarrConnection, ApplicationResource, ProwlarrApi}

record Request : Type 0 where
  pub method : String
  pub url : String
  pub headers : Dict String String
  pub body : Option String

record Response : Type 0 where
  pub status_code : ℤ
  pub body : String

record HttpClient (S : Type 0) : Type 0 where
  pub url_error : String → Option String
  pub send : Request → S → Result Response × S
  pub encode : ApplicationResource → Result String
  pub decode_list : String → Result (List ApplicationResource)
  pub decode : String → Result ApplicationResource

abbrev x_api_key : String
x_api_key = "X-Api-Key"

unfoldable unexpected_status : Response → String
unfolding decimal_int
unexpected_status resp = "unexpected status " <> decimal_int resp.status_code <> ": " <> resp.body

module _ {S : Type 0} (client : HttpClient S) where
  -- The request is sent if its URL is one, and answered with one of two status codes.
  unfoldable request : Request → ℤ → ℤ → S → Result Response × S
  unfolding unexpected_status
  request req expected also s =
      let (r, s') = client.send req s in
      elim (client.url_error req.url) [
        | some e ↦ (err e, s)
        | none ↦ (
          (elim r [
            | err e ↦ err e
            | ok resp ↦
                if (resp.status_code == expected) || (resp.status_code == also)
                then ok resp
                else err (unexpected_status resp)
          ]),
          s',
        )
      ]

  unfoldable get : ProwlarrConnection → String → S → Result (List ApplicationResource) × S
  unfolding request
  get prowlarr path s =
      let (r, s') =
        request
          (record {
            method = "GET";
            url = prowlarr.url <> path;
            headers = (x_api_key, prowlarr.api_key) ∷ [];
            body = none;
          })
          (pos 200) (pos 200) s in
      (elim r [ err e ↦ err e | ok resp ↦ client.decode_list resp.body ], s')

  unfoldable send_body :
      String → ℤ → ProwlarrConnection → String → ApplicationResource → S → Result Response × S
  unfolding request
  send_body method also prowlarr path app s = elim (client.encode app) [
    | err e ↦ (err e, s)
    | ok text ↦
        request
          (record {
            method = method;
            url = prowlarr.url <> path;
            headers = (x_api_key, prowlarr.api_key) ∷ ("Content-Type", "application/json") ∷ [];
            body = some text;
          })
          (pos 200) also s
  ]

  -- The answer is decoded, since `createApplication` passes a result.
  unfoldable post : ProwlarrConnection → String → ApplicationResource → S → Option String × S
  unfolding send_body
  post prowlarr path app s =
      let (r, s') = send_body "POST" (pos 201) prowlarr path app s in
      (
        (elim r [
          | err e ↦ some e
          | ok resp ↦ elim (client.decode resp.body) [ err e ↦ some e | ok created ↦ none ]
        ]),
        s',
      )

  -- `updateApplication` passes no result.
  unfoldable put : ProwlarrConnection → String → ApplicationResource → S → Option String × S
  unfolding send_body
  put prowlarr path app s =
      let (r, s') = send_body "PUT" (pos 202) prowlarr path app s in
      ((elim r [ err e ↦ some e | ok resp ↦ none ]), s')

  unfoldable delete : ProwlarrConnection → String → S → Option String × S
  unfolding request
  delete prowlarr path s =
      let (r, s') =
        request
          (record {
            method = "DELETE";
            url = prowlarr.url <> path;
            headers = (x_api_key, prowlarr.api_key) ∷ [];
            body = none;
          })
          (pos 200) (pos 204) s in
      ((elim r [ err e ↦ some e | ok resp ↦ none ]), s')

  unfoldable http_api : ProwlarrApi S
  http_api = record { get = get; post = post; put = put; delete = delete }
