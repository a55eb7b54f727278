-- ===== src/Tests/Llama.antt =====
-- The llama.cpp provider on concrete inputs, over a binding that knows three tokens.
use cotrex_ai.Base.{
  ◌⊎◌, ℕ, suc, ◌≡◌, ◌≤◌, ◌<◌, ◌+◌, true, some, [], ◌∷◌, length, All, Result, ok, err, and_then,
  nat_beq, refl,
}
use cotrex_ai.FilePath.{normal}
use cotrex_ai.Runtime.Local.{InferenceRequest, ProviderError}
use cotrex_ai.Runtime.Config.{ResolvedConfig}
use cotrex_ai.Providers.Llama.{
  Binding, LlamaCppModel, loaded_of, unloaded_info, prepare, prompt_text, check_size, open_context,
}
use cotrex_ai.Providers.Llama.Generation.{Session, write, begin, infer, respond}
use cotrex_ai.Providers.Llama.Generation.Positions.{From}
use cotrex_ai.Providers.Llama.Generation.Bounds.{Counting}
use cotrex_ai.Providers.Llama.Generation.Within.{infer_within_context}

-- A batch is the number of its tokens; the sampler draws 0, 1 and 2, and 2 ends the text.
abbrev toy : Binding
toy = record {
  Model = Unit {0};
  Template = Unit {0};
  Message = Unit {0};
  Context = Unit {0};
  Batch = ℕ;
  Sampler = ℕ;
  Decoder = Unit {0};
  Token = ℕ;
  load_from_file = λ path layers. ok tt;
  chat_template = λ m. ok tt;
  new_message = λ role content. ok tt;
  apply_chat_template = λ m t messages. ok "hello";
  str_to_token = λ m s. ok (7 ∷ 8 ∷ 9 ∷ []);
  new_context = λ m n threads. ok tt;
  new_batch = λ capacity. 0;
  add = λ token position logits b. (ok tt, suc b);
  clear = λ b. 0;
  n_tokens = λ b. b;
  decode = λ s. (ok tt, s);
  greedy_chain = λ seed. 0;
  temperature_chain = λ t seed. 0;
  sample = λ c i s. (s, suc s);
  accept = λ token s. s;
  is_eog_token = λ m token. nat_beq token 2;
  utf8_decoder = tt;
  token_to_piece = λ m token d. (ok "ha", d);
}

toy_counts : Counting toy
toy_counts = record {
  new_counts = λ capacity. refl;
  add_counts = λ token position logits b h. refl;
  decode_counts = λ c b. refl;
}

abbrev ask : InferenceRequest
ask = record { prompt = "hello"; messages = []; temperature = 0; max_tokens = 5 }

abbrev config : ResolvedConfig
config = record {
  backend = "llama.cpp";
  model_name = "tiny";
  model_path = normal "tiny.gguf" ∷ [];
  context = 8;
  temperature = 0;
  max_tokens = 5;
  threads = 1;
  gpu_layers = 0;
}

abbrev loaded_model : LlamaCppModel toy
loaded_model = record {
  model = some tt;
  info = unloaded_info;
  loaded_config = some (loaded_of config);
}

abbrev outcome : Result (Unit {0}) ProviderError × Session toy
outcome = write toy tt ask (7 ∷ 8 ∷ 9 ∷ []) (begin toy 1 ask tt (7 ∷ 8 ∷ 9 ∷ []))

infer_within_context_example :
    From 0 outcome.1.placed
    × All (λ x. x.1 < 8) outcome.1.placed
    × (outcome.1.generated_tokens ≤ 5)
    × (infer toy 1 true ask loaded_model
        ≡ and_then outcome.0 (λ u. ok (respond toy true 3 outcome.1)))
    × (((e : ProviderError) × (outcome.0 ≡ err e))
        ⊎ (length outcome.1.placed ≡ 3 + outcome.1.generated_tokens))
unfolding prepare prompt_text check_size open_context
infer_within_context_example =
    infer_within_context toy toy_counts 1 true ask loaded_model tt (loaded_of config) tt
      (7 ∷ 8 ∷ 9 ∷ []) refl refl refl
