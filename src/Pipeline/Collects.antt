-- ===== src/Pipeline/Collects.antt =====
-- What a response that is not streamed is made of.
use text.Mathlib.TextLemmas
use vulpes_core.Base.{
  String, ◌<>◌, ◌≡◌, refl, ap, sym, ◌∙◌, Option, none, some, List, [], ◌∷◌, ◌==◌, subst, Result, ok,
  err,
}
use vulpes_core.Base.Value.{Value, null, bool, int, float, str, arr, obj}
use vulpes_core.Capabilities.{ResponseChunk, UpstreamError, Usage, ChatChoice, ChatCompletionChunk}
use vulpes_core.Pipeline.Platform.{Platform}
use vulpes_core.Pipeline.State.{Reply, zero_usage, assistant_choice}
use vulpes_core.Pipeline.Exec.{Exit, next, done, panic, Gateway, pure, ◌>>=◌}
use vulpes_core.Pipeline.Post.{Meets, Returns, Returns-pure, Returns-if, Returns-bind, Returns-call}
use vulpes_core.Pipeline.Collect.{
  Collected, Response, append_text, append_choices, take_usage, take_chunk, collect_chunks,
  collect_response, finish_response, nothing_collected, usage_map,
}

-- The text of a content, and no text where it is none.
abbrev pub text_of : Value → String
text_of (str s) = s
text_of _ = ""

abbrev pub said_in : List ChatChoice → String
said_in [] = ""
said_in (c ∷ cs) = text_of c.delta.content <> text_of c.message.content <> said_in cs

abbrev pub said_by : Option ChatCompletionChunk → String
said_by none = ""
said_by (some chunk) = said_in chunk.choices

-- All that the chunks say.
abbrev pub said : List ResponseChunk → String
said [] = ""
said (chunk ∷ chunks) = said_by chunk.chunk <> said chunks

abbrev pub first_error : List ResponseChunk → Option UpstreamError
first_error [] = none
first_error (chunk ∷ chunks) = elim chunk.error [ some e ↦ some e | none ↦ first_error chunks ]

-- The usage of the last chunk that has one.
abbrev pub last_usage : Usage → List ResponseChunk → Usage
last_usage usage [] = usage
last_usage usage (chunk ∷ chunks) = elim chunk.usage [
  | none ↦ last_usage usage chunks
  | some later ↦ last_usage later chunks
]

append_text_lem : (s : String) (v : Value) → append_text s v ≡ s <> text_of v
append_text_lem s (str t) = refl
append_text_lem s null = sym (TextLemmas.append-nil s)
append_text_lem s (bool b) = sym (TextLemmas.append-nil s)
append_text_lem s (int b) = sym (TextLemmas.append-nil s)
append_text_lem s (float b) = sym (TextLemmas.append-nil s)
append_text_lem s (arr b) = sym (TextLemmas.append-nil s)
append_text_lem s (obj b) = sym (TextLemmas.append-nil s)

append_choices_lem : (s : String) (cs : List ChatChoice) → append_choices s cs ≡ s <> said_in cs
unfolding append_choices
append_choices_lem s [] = sym (TextLemmas.append-nil s)
append_choices_lem s (c ∷ cs) = rw (
  append_choices_lem (append_text (append_text s c.delta.content) c.message.content) cs,
  append_text_lem (append_text s c.delta.content) c.message.content,
  append_text_lem s c.delta.content,
  TextLemmas.append_assoc,
  TextLemmas.append_assoc,
)

content-take_chunk :
    (model : String) (o : Option ChatCompletionChunk) (c : Collected)
    → (take_chunk model o c).content ≡ c.content <> said_by o
unfolding take_chunk
content-take_chunk model none c = sym (TextLemmas.append-nil c.content)
content-take_chunk model (some chunk) c = append_choices_lem c.content chunk.choices

usage-take_chunk :
    (model : String) (o : Option ChatCompletionChunk) (c : Collected)
    → (take_chunk model o c).usage ≡ c.usage
unfolding take_chunk
usage-take_chunk model none c = refl
usage-take_chunk model (some chunk) c = refl

content-take_usage : (o : Option Usage) (c : Collected) → (take_usage o c).content ≡ c.content
content-take_usage none c = refl
content-take_usage (some usage) c = refl

-- The loop ends with this error, or else with this text and this usage.
abbrev Ends : Option UpstreamError → String → Usage → Result UpstreamError Collected → Type 0
Ends error text usage (err e) = error ≡ some e
Ends error text usage (ok d) = (error ≡ none) × (d.content ≡ text) × (d.usage ≡ usage)

Ends-error :
    (o error : Option UpstreamError) (text : String) (usage : Usage)
    (r : Result UpstreamError Collected)
    → Ends error text usage r
    → Ends
        (elim o [ some e ↦ some e | none ↦ error ])
        text
        usage
        (elim o [ some e ↦ err e | none ↦ r ])
Ends-error none error text usage r h = h
Ends-error (some e) error text usage r h = refl

last_usage-take_usage :
    (o : Option Usage) (c : Collected) (chunks : List ResponseChunk)
    → last_usage (take_usage o c).usage chunks
      ≡ elim o [ none ↦ last_usage c.usage chunks | some later ↦ last_usage later chunks ]
last_usage-take_usage none c chunks = refl
last_usage-take_usage (some later) c chunks = refl

collect_chunks_lem :
    (model : String) (chunks : List ResponseChunk) (c : Collected)
    → Ends
        (first_error chunks)
        (c.content <> said chunks)
        (last_usage c.usage chunks)
        (collect_chunks model chunks c)
unfolding collect_chunks
collect_chunks_lem model [] c = (refl, sym (TextLemmas.append-nil c.content), refl)
collect_chunks_lem model (chunk ∷ chunks) c =
    let c' : Collected = take_usage chunk.usage c in
    let c'' : Collected = take_chunk model chunk.chunk c' in
    let error = first_error chunks in
    let r = collect_chunks model chunks c'' in
    let text : c''.content <> said chunks ≡ c.content <> said_by chunk.chunk <> said chunks = rw (
      content-take_chunk model chunk.chunk c',
      content-take_usage chunk.usage c,
      TextLemmas.append_assoc,
    ) in
    let usage =
      ap (λ u. last_usage u chunks) (usage-take_chunk model chunk.chunk c')
      ∙ last_usage-take_usage chunk.usage c chunks in
    let whole = collect_chunks_lem model chunks c'' in
    let with_text = subst (λ t. Ends error t (last_usage c''.usage chunks) r) text whole in
    let with_usage =
      subst (λ u. Ends error (c.content <> said_by chunk.chunk <> said chunks) u r) usage
        with_text in
    Ends-error chunk.error error _ _ r with_usage

abbrev Never : Reply → Type 0
Never r = ⊥

-- What a collected answer is, from the chunks: the first error, or one choice with all that they
-- say, and the usage of the last chunk that has one.
abbrev pub Collects : List ResponseChunk → Result UpstreamError Response → Type 0
Collects chunks (err e) = first_error chunks ≡ some e
Collects chunks (ok r) =
    (first_error chunks ≡ none)
    × (r.resp.choices ≡ assistant_choice (said chunks) "stop" ∷ [])
    × (r.usage ≡ last_usage zero_usage chunks)
    × (r.resp.usage ≡ usage_map r.usage)

module _ {W : Type 0} (P : Platform W) where
  Returns-finish_response :
      (model : String) (c : Collected)
      → Returns {W = W}
          (λ r.
            (r.choices ≡ assistant_choice c.content "stop" ∷ []) × (r.usage ≡ usage_map c.usage))
          Never
          (finish_response P model c)
  unfolding finish_response
  Returns-finish_response model c =
      Returns-bind {M = λ r. Unit}
        (Returns-if (c.resp.id == "")
          (λ _.
            Returns-bind (Returns-call {N = λ x. Unit} _ (λ a. tt)) λ _ _.
              Returns-bind (Returns-call {N = λ x. Unit} _ (λ a. tt)) λ _ _. Returns-pure _ tt)
          (λ _. Returns-pure _ tt))
        λ _ _. Returns-pure _ (refl, refl)

  Returns-ended :
      (chunks : List ResponseChunk) (model : String) (r : Result UpstreamError Collected)
      → Ends (first_error chunks) (said chunks) (last_usage zero_usage chunks) r
      → Returns {W = W} (Collects chunks) Never (elim r [
        | err e ↦ pure (err e)
        | ok c ↦ do
          resp ← finish_response P model c
          pure (ok (record { resp = resp; usage = c.usage }))
      ])
  Returns-ended chunks model (err e) h = Returns-pure _ h
  Returns-ended chunks model (ok c) h = Returns-bind (Returns-finish_response model c) λ resp made.
      Returns-pure _ (h.0, made.0 ∙ ap (λ t. assistant_choice t "stop" ∷ []) h.1, h.2, made.1)

  collected :
      (chunks : List ResponseChunk) (e : Exit Reply (Result UpstreamError Response))
      → Meets (Collects chunks) Never e
      → (out : Result UpstreamError Response) × (e ≡ next out) × Collects chunks out
  collected chunks (next out) h = (out, refl, h)
  collected chunks (done r) h = absurd h
  collected chunks panic h = absurd h

  -- Collecting an answer always ends, and never panics: with the first error of a chunk if there
  -- is one; otherwise with a single choice, whose text is everything the chunks say in their order,
  -- delta before message, and with the usage of the last chunk that has one, which the response
  -- tells unless its total is not positive.
  pub collect_response_lem :
      (chunks : List ResponseChunk) (model : String) (g : Gateway W)
      → (out : Result UpstreamError Response) × ((collect_response {R = Reply} P chunks model g).0
          ≡ next out)
        × Collects chunks out
  unfolding collect_response
  collect_response_lem chunks model g =
      let from_nothing : "" <> said chunks ≡ said chunks = TextLemmas.nil-append (said chunks) in
      let loop =
        subst
          (λ t.
            Ends (first_error chunks) t (last_usage zero_usage chunks)
              (collect_chunks model chunks nothing_collected))
          from_nothing (collect_chunks_lem model chunks nothing_collected) in
      collected chunks _ ((Returns-ended chunks model _ loop).at g)
