-- ===== src/Providers/Llama/Generation.antt =====
-- `LlamaCppModel::infer` (providers/llama-cpp/src/lib.rs) from the first batch on: the prompt is
-- written into the context token by token, then one token a round is drawn and written. The callback
-- of a request is left out. A position, an i32 there, is a natural number here, and is not wrapped.
pub mod Positions
pub mod Bounds
pub mod Within
use cotrex_ai.Base.{
  ℕ, zero, suc, ◌+◌, ◌-◌, String, ◌<>◌, Bool, true, false, Option, none, some, List, [], ◌∷◌, ◌++◌,
  length, Result, ok, err, ok_or, and_then, map_err, Method, ◌>>=◌, ◌>>◌, pure, lift, nat_beq,
  if◌then◌else◌,
}
use cotrex_ai.Runtime.Local.{ProviderError, model_error, InferenceRequest, LocalModel}
use cotrex_ai.Runtime.Config.{ResolvedConfig}
use cotrex_ai.FilePath.{FilePath}
use cotrex_ai.Providers.Llama.{Binding, LlamaCppModel, LoadedConfig, prepare, le_zero, load, unload}

-- The counts of a profile.
pub record InferProfile : Type 0 where
  prompt_tokens : ℕ
  pub generated_tokens : ℕ

pub record InferenceResponse : Type 0 where
  pub text : String
  pub profile : Option InferProfile

module _ (B : Binding) where
  -- The local variables of `infer`, with `placed` for what the batch has been given: each token
  -- with its position, in the order of the calls.
  pub record Session : Type 0 where
    pub context : B.Context
    pub batch : B.Batch
    sampler : B.Sampler
    decoder : B.Decoder
    pub output : String
    pub n_cur : ℕ
    pub generated_tokens : ℕ
    pub placed : List (B.Token × ℕ)

  unfoldable pub place : B.Token → ℕ → Bool → Method Session (Unit {0}) ProviderError
  place token position logits s =
      let (r, batch) = B.add token position logits s.batch in
      (
        map_err (λ e. model_error ("batch add failed: " <> e)) r,
        record s { batch = batch; placed = s.placed ++ (token, position) ∷ [] },
      )

  unfoldable pub decode : Method Session (Unit {0}) ProviderError
  decode s =
      let (r, left) = B.decode (s.context, s.batch) in
      (
        map_err (λ e. model_error ("decode failed: " <> e)) r,
        record s { context = left.0; batch = left.1 },
      )

  -- The loop over the tokens of the prompt, from position `i` on.
  unfoldable pub fill : ℕ → ℕ → List B.Token → Method Session (Unit {0}) ProviderError
  fill last_index i [] = pure tt
  fill last_index i (token ∷ tokens) =
      place token i (nat_beq i last_index) >> fill last_index (suc i) tokens

  unfoldable pub draw : Session → B.Token × Session
  draw s =
      let (token, sampler) = B.sample s.context (B.n_tokens s.batch - 1) s.sampler in
      (token, record s { sampler = B.accept token sampler })

  unfoldable pub spell : B.Model → B.Token → Method Session (Unit {0}) ProviderError
  spell model token s =
      let (r, decoder) = B.token_to_piece model token s.decoder in
      elim r [
        | err e ↦ (err (model_error ("token decode failed: " <> e)), record s { decoder = decoder })
        | ok text ↦ (
          ok tt,
          record s {
            decoder = decoder;
            output = s.output <> text;
            generated_tokens = suc s.generated_tokens;
            batch = B.clear s.batch;
          },
        )
      ]

  -- `n_cur += 1`
  abbrev advance : Method Session (Unit {0}) ProviderError
  advance s = (ok tt, record s { n_cur = suc s.n_cur })

  -- The rest of a round, for a token that does not end the text; the position is `n_cur`.
  unfoldable pub extend : B.Model → B.Token → ℕ → Method Session (Unit {0}) ProviderError
  extend model token position = spell model token >> place token position true >> decode >> advance

  -- The rounds of the generation; the first token that ends the text ends them.
  unfoldable pub generate : B.Model → ℕ → Method Session (Unit {0}) ProviderError
  generate model zero s = pure tt s
  generate model (suc rounds) s =
      let (token, s1) = draw s in
      elim (B.is_eog_token model token) [
        | true ↦ (ok tt, s1)
        | false ↦ (extend model token s1.n_cur >> generate model rounds) s1
      ]

  abbrev chain : ℕ → InferenceRequest → B.Sampler
  chain seed request =
      if le_zero request.temperature
      then B.greedy_chain seed
      else B.temperature_chain request.temperature seed

  unfoldable pub begin : ℕ → InferenceRequest → B.Context → List B.Token → Session
  begin seed request context tokens = record {
    context = context;
    batch = B.new_batch (length tokens + request.max_tokens + 1);
    sampler = chain seed request;
    decoder = B.utf8_decoder;
    output = "";
    n_cur = 0;
    generated_tokens = 0;
    placed = [];
  }

  -- `let mut n_cur = batch.n_tokens()`
  abbrev pub start_counting : Method Session (Unit {0}) ProviderError
  start_counting s = (ok tt, record s { n_cur = B.n_tokens s.batch })

  -- The fourth and the fifth phase.
  unfoldable pub write :
      B.Model → InferenceRequest → List B.Token → Method Session (Unit {0}) ProviderError
  write model request tokens =
      fill (length tokens - 1) 0 tokens
      >> decode
      >> start_counting
      >> generate model request.max_tokens

  unfoldable pub respond : Bool → ℕ → Session → InferenceResponse
  respond profiling prompt_tokens s = record {
    text = s.output;
    profile =
        if profiling
        then some (record { prompt_tokens = prompt_tokens; generated_tokens = s.generated_tokens })
        else none;
  }

  -- What the last two phases make of a context and the tokens of the prompt.
  unfoldable pub finish :
      ℕ
      → Bool
      → B.Model
      → InferenceRequest
      → B.Context × List B.Token
      → Result InferenceResponse ProviderError
  finish seed profiling model request opened =
      let (r, s) = write model request opened.1 (begin seed request opened.0 opened.1) in
      and_then r (λ u. ok (respond profiling (length opened.1) s))

  -- `seed` comes from the clock, and `profiling` from the variable `COTREX_PROFILE`.
  unfoldable pub infer :
      ℕ → Bool → InferenceRequest → LlamaCppModel B → Result InferenceResponse ProviderError
  infer seed profiling request s =
      and_then (ok_or s.model (model_error "model not loaded")) (λ model.
        and_then (ok_or s.loaded_config (model_error "model not loaded")) (λ loaded.
          and_then (prepare B model loaded request) (finish seed profiling model request)))

  -- The model as a local provider holds it: of a response, only the text is read there.
  abbrev pub llama : (FilePath → Bool) → ℕ → LocalModel
  llama exists seed = record {
    State = LlamaCppModel B;
    Config = ResolvedConfig;
    load = load B exists;
    infer = λ request s. and_then (infer seed false request s) (λ r. ok r.text);
    unload = unload B;
    info = λ s. s.info;
  }
