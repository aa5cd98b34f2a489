-- ===== src/Run/Honesty.antt =====
-- mcp/normalize.ts and the honesty fields of orchestrator/runner.ts: what a tool's result says of its
-- own fidelity. `parsed` is what `JSON.parse` makes of the text, none where there is nothing to parse.
use arivion.Prelude.{
  ℕ, zero, suc, String, Bool, true, false, not, ◌&&◌, Option, none, some, List, [], ◌∷◌, ◌++◌,
  includes, str_eq, any, if◌then◌else◌,
}
use arivion.Run.Json.{
  Json, null, bool, num, str, arr, obj, Items, end, item, Fields, empty, field, own,
}

unfoldable pub honesty_keys : List String
honesty_keys =
    "fill_model" ∷ "fill_model_mode" ∷ "maker_fills_optimistic" ∷ "liquidity_free_upper_bound"
    ∷ "coverage_proof" ∷ "coverage" ∷ "result_tier" ∷ "execution_fidelity" ∷ "verified"
    ∷ "risk_class" ∷ "risk_score" ∷ "hard_blocks" ∷ "validation" ∷ "recovery_blocked" ∷ []

-- an object that the code fills key by key, in the order of its keys
abbrev pub Honesty : Type 0 → Type 0
Honesty N = List (String × Json N)

-- `NormalizedToolResult`, without its text
pub record ToolResult (N : Type 0) : Type 0 where
  pub is_error : Bool
  pub raw : Option (Json N)
  pub honesty : Honesty N

module _ {N : Type 0} where
  unfoldable pub find_key : String → Honesty N → Option (Json N)
  find_key key [] = none
  find_key key ((k, v) ∷ out) = if str_eq k key then some v else find_key key out

  abbrev has_key : Honesty N → String → Bool
  has_key out key = any (λ e. str_eq e.0 key) out

  -- `if (HONESTY_KEYS.includes(k) && !(k in out)) out[k] = v`
  unfoldable pub surface : String → Json N → Honesty N → Honesty N
  surface k v out =
      if includes honesty_keys k && not (has_key out k) then out ++ (k, v) ∷ [] else out

  -- `collectHonesty`, with the levels that are left: `depth > 8` is none left
  unfoldable mutual
    pub collect : ℕ → Json N → Honesty N → Honesty N
    collect zero node out = out
    collect (suc depth) null out = out
    collect (suc depth) (bool b) out = out
    collect (suc depth) (num n) out = out
    collect (suc depth) (str s) out = out
    collect (suc depth) (arr items) out = collect_items depth items out
    collect (suc depth) (obj fields) out = collect_fields depth fields out

    collect_items : ℕ → Items N → Honesty N → Honesty N
    collect_items depth end out = out
    collect_items depth (item v vs) out = collect_items depth vs (collect depth v out)

    collect_fields : ℕ → Fields N → Honesty N → Honesty N
    collect_fields depth empty out = out
    collect_fields depth (field k v fs) out =
        collect_fields depth fs (collect depth v (surface k v out))

  unfoldable normalize_tool_result : Bool → Option (Json N) → ToolResult N
  unfolding collect
  normalize_tool_result is_error none = record { is_error = is_error; raw = none; honesty = [] }
  normalize_tool_result is_error (some raw) = record {
    is_error = is_error;
    raw = some raw;
    honesty = collect 9 raw [];
  }

  abbrev is_null : Json N → Bool
  is_null null = true
  is_null (bool b) = false
  is_null (num n) = false
  is_null (str s) = false
  is_null (arr items) = false
  is_null (obj fields) = false

  -- `acc[k] = v`
  unfoldable set_key : String → Json N → Honesty N → Honesty N
  set_key key v [] = (key, v) ∷ []
  set_key key v ((k, w) ∷ acc) =
      let rest = set_key key v acc in if str_eq k key then (k, v) ∷ acc else (k, w) ∷ rest

  unfoldable pub merge_honesty : Honesty N → Honesty N → Honesty N
  unfolding set_key
  merge_honesty acc [] = acc
  merge_honesty acc ((k, v) ∷ next) =
      merge_honesty (if is_null v then acc else set_key k v acc) next

  abbrev number_of : Option (Json N) → Option N
  number_of (some (num n)) = some n
  number_of _ = none

  abbrev or_else_number : Option N → Option N → Option N
  or_else_number (some n) o = some n
  or_else_number none o = o

  abbrev proof_coverage : Option (Json N) → Option N
  proof_coverage (some (obj fields)) = number_of (own "coverage" fields)
  proof_coverage _ = none

  unfoldable pub coverage_value : Honesty N → Option N
  coverage_value honesty =
      or_else_number (number_of (find_key "coverage" honesty))
        (proof_coverage (find_key "coverage_proof" honesty))

  abbrev is_filled_array : Option (Json N) → Bool
  is_filled_array (some (arr (item v vs))) = true
  is_filled_array _ = false

  -- `Array.isArray(blocks) && blocks.length > 0`
  unfoldable pub has_hard_blocks : Honesty N → Bool
  has_hard_blocks honesty = is_filled_array (find_key "hard_blocks" honesty)
