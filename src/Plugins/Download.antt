-- ===== src/Plugins/Download.antt =====
-- `HTTPDownloader` of internal/plugins/github.go. The client of net/http is an argument.
use vulpes_core.Base.{
  ℕ, String, ◌<>◌, ◌||◌, ◌==◌, Option, none, some, Result, ok, err, ltb, if◌then◌else◌, arith,
  Bool-cases, Option-cases, inl, inr, ◌≤◌, ◌≡◌, ◌↔◌, ap, ◌∙◌, ok-injective,
}
use vulpes_core.Capabilities.{Error, plain}
use vulpes_core.Plugins.Archive.{Contents}
use vulpes_core.Plugins.Sources.{Downloader, given}
use vulpes_core.Plugins.Pinned.{given-ok}

-- A GET request: its address, and the header Authorization if it is set.
pub record GetRequest : Type 0 where
  pub url : String
  pub authorization : Option String

pub record Answer : Type 0 where
  pub status_code : ℕ
  pub status : String
  pub body : Contents

pub record HttpClient (W : Type 0) : Type 0 where
  -- the error of `http.NewRequestWithContext` for an address
  pub address_error : String → Option Error
  -- the environment variable GITHUB_TOKEN
  pub github_token : W → String
  pub do_request : GetRequest → W → Result Error Answer × W
  -- `resp.Body.Close`
  pub close_body : W → W

abbrev pub bearer : String → Option String
bearer token = if token == "" then none else some ("Bearer " <> token)

given-next :
    {W A B : Type 0} (out : Result Error A × W) (rest : A → W → Result Error B × W) (a : A)
    → out.0 ≡ ok a
    → given out rest ≡ rest a out.1
given-next (err e, w) rest a h = ground (arith, h)
given-next (ok b, w) rest a h = ap (λ x. rest x w) (ok-injective h)

module _ {W : Type 0} (client : HttpClient W) where
  -- What is done with an answer: its body is given only for a status from 200 to 299.
  unfoldable pub take_body : String → Answer → W → Result Error Contents × W
  take_body url answer w =
      if ltb answer.status_code 200 || ltb 299 answer.status_code
      then (err (plain ("download " <> url <> ": status " <> answer.status)), client.close_body w)
      else (ok answer.body, w)

  -- `Download`
  unfoldable pub http_download : Downloader W
  unfolding take_body
  http_download url w = elim (client.address_error url) [
    | some e ↦ (err e, w)
    | none ↦
        given
          (client.do_request (record { url = url; authorization = bearer (client.github_token w) })
            w)
          (take_body url)
  ]

  -- The answer to the request for an address.
  abbrev pub fetched : String → W → Result Error Answer × W
  fetched url w =
      client.do_request (record { url = url; authorization = bearer (client.github_token w) }) w

  take_body-ok :
      (url : String) (answer : Answer) (w : W) (body : Contents)
      → (take_body url answer w).0 ≡ ok body
      → (200 ≤ answer.status_code) × (answer.status_code ≤ 299) × (answer.body ≡ body)
  unfolding take_body
  take_body-ok url answer w body h =
      elim (Bool-cases (ltb answer.status_code 200 || ltb 299 answer.status_code)) [
        | inl out ↦ ground (arith, h, out)
        | inr within ↦ ground (arith, h, within)
      ]

  delivered_by :
      (url : String) (w : W) (body : Contents)
      → (http_download url w).0 ≡ ok body
      → (client.address_error url ≡ none)
        × (answer : Answer) × ((fetched url w).0 ≡ ok answer)
        × (200 ≤ answer.status_code)
        × (answer.status_code ≤ 299)
        × (answer.body ≡ body)
  unfolding http_download
  delivered_by url w body h = elim (Option-cases (client.address_error url)) [
    | inr (e, bad) ↦ ground (arith, h, bad)
    | inl valid ↦
        let given_body : (given (fetched url w) (take_body url)).0 ≡ ok body =
          ground (arith, h, valid) in
        let (answer, got, taken) = given-ok (fetched url w) (take_body url) body given_body in
        let (low, high, same) = take_body-ok url answer (fetched url w).1 body taken in
        (valid, answer, got, low, high, same)
  ]

  delivers :
      (url : String) (w : W) (body : Contents)
      → client.address_error url ≡ none
      → (answer : Answer) → (fetched url w).0 ≡ ok answer
      → 200 ≤ answer.status_code
      → answer.status_code ≤ 299
      → answer.body ≡ body
      → (http_download url w).0 ≡ ok body
  unfolding http_download take_body
  delivers url w body valid answer got low high same =
      rw (valid, http_download)
        (ap (λ o. o.0) (given-next (fetched url w) (take_body url) answer got)
          ∙ ground (arith, low, high, same))

  -- A download gives a body exactly if the address is a valid one and the client got an answer with
  -- this body and a status from 200 to 299, to a request that has the token of the environment, if
  -- there is one, and nothing else, in its header Authorization.
  pub http_download_lem :
      (url : String) (w : W) (body : Contents)
      → ((http_download url w).0 ≡ ok body) ↔ (
          (client.address_error url ≡ none)
          × (answer : Answer) × ((fetched url w).0 ≡ ok answer)
          × (200 ≤ answer.status_code)
          × (answer.status_code ≤ 299)
          × (answer.body ≡ body))
  http_download_lem url w body = (
    delivered_by url w body,
    λ (valid, answer, got, low, high, same). delivers url w body valid answer got low high same,
  )
