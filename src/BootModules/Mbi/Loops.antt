-- ===== src/BootModules/Mbi/Loops.antt =====
-- How far the loops of `construct_mbi` move the cursor for the texts.
use bootstrap.Prelude.{
  ℕ, suc, ◌+◌, ◌*◌, ◌/◌, ◌^◌, ◌<◌, ◌≡◌, inl, inr, refl, Bool, true, false, List, [], ◌∷◌, length,
  arith, if◌then◌else◌, ◌&&◌, ◌||◌, not, Bool-cases, add_word,
}
use bootstrap.BootModules.{ModInfo}
use bootstrap.BootModules.Mbi.{
  MbiLayout, MbiStores, InternalModule, Filling, text_size, add_module, add_internal, fill_run,
  fill_internal, is_base_module, texts_size, internal_size,
}

-- The bytes that a text takes, with its null character and to a multiple of eight.
abbrev pub padded : List ℕ → ℕ
padded text = (length text + 8) / 8 * 8

unfoldable pub total : List (List ℕ) → ℕ
total [] = 0
total (i ∷ is) = padded i + total is

-- Texts of less than 4 GiB.
abbrev pub AllShort : List (List ℕ) → Type 0
AllShort [] = Unit
AllShort (i ∷ is) = (length i + 1 < 2 ^ 32) × AllShort is

module _ (c : MbiLayout) where
  -- The texts of the internal modules.
  abbrev pub internal_texts : List InternalModule → List (List ℕ)
  internal_texts [] = []
  internal_texts (m ∷ ms) = m.cmdline ∷ internal_texts ms

  -- The texts of the base modules, or of those that are not, from an index on.
  abbrev pub run_texts : Bool → (ℕ → List ℕ) → List ModInfo → ℕ → List (List ℕ)
  run_texts base cmdline [] index = []
  run_texts base cmdline (m ∷ ms) index =
      let rest = run_texts base cmdline ms (suc index) in
      if (if base then is_base_module c m else not (is_base_module c m))
      then cmdline index ∷ rest
      else rest

  -- The size that the loops over the command lines compute.
  pub texts_size-total :
      (cmdline : ℕ → List ℕ) (ms : List ModInfo) (index : ℕ)
      → AllShort (run_texts true cmdline ms index)
      → AllShort (run_texts false cmdline ms index)
      → total (run_texts true cmdline ms index) + total (run_texts false cmdline ms index) < 2 ^ 64
      → texts_size c cmdline ms index
        ≡ total (run_texts true cmdline ms index) + total (run_texts false cmdline ms index)
  unfolding texts_size total
  texts_size-total cmdline [] index = λ h k f. refl
  texts_size-total cmdline (m ∷ ms) index = elim (Bool-cases (is_base_module c m)) [
    | inl e ↦ rw (e) (λ h k f.
        omega (arith, h.0, f, texts_size-total cmdline ms (suc index) h.1 k (omega (arith, f))))
    | inr e ↦ rw (e) (λ h k f.
        omega (arith, k.0, f, texts_size-total cmdline ms (suc index) h k.1 (omega (arith, f))))
  ]

  pub internal_size-total :
      (ms : List InternalModule)
      → AllShort (internal_texts ms)
      → total (internal_texts ms) < 2 ^ 64
      → internal_size c ms ≡ total (internal_texts ms)
  unfolding internal_size total
  internal_size-total [] h f = refl
  internal_size-total (m ∷ ms) h f =
      omega (arith, h.0, f, internal_size-total ms h.1 (omega (arith, f)))

-- A text in front of the others.
next :
    (strs rest end : ℕ) (text : List ℕ)
    → length text + 1 < 2 ^ 32
    → strs + (padded text + rest) < 2 ^ 64
    → (add_word strs (text_size text) + rest < 2 ^ 64 → end ≡ add_word strs (text_size text) + rest)
    → end ≡ strs + (padded text + rest)
next strs rest end text h f go = omega (arith, h, f, go (omega (arith, h, f)))

module _ (c : MbiLayout) (st : MbiStores) (mbi : ℕ) where
  -- A round of the loop, by what is asked for and by what the module is.
  run_step :
      (base is_base : Bool) (text : List ℕ) (m : ModInfo) (texts : List (List ℕ))
      (go : Filling → Filling) (s : Filling)
      → ((s' : Filling)
          → AllShort texts
          → s'.strs + total texts < 2 ^ 64
          → (go s').strs ≡ s'.strs + total texts)
      → AllShort (if (if base then is_base else not is_base) then text ∷ texts else texts)
      → s.strs + total (if (if base then is_base else not is_base) then text ∷ texts else texts)
        < 2 ^ 64
      → (go (
          if (base && not is_base) || (not base && is_base)
          then s
          else add_module c st mbi text m s)).strs
        ≡ s.strs + total (if (if base then is_base else not is_base) then text ∷ texts else texts)
  unfolding total
  run_step true true text m texts go s ih h f =
      next s.strs (total texts) (go (add_module c st mbi text m s)).strs text h.0 f
        (ih (add_module c st mbi text m s) h.1)
  run_step true false text m texts go s ih h f = ih s h f
  run_step false true text m texts go s ih h f = ih s h f
  run_step false false text m texts go s ih h f =
      next s.strs (total texts) (go (add_module c st mbi text m s)).strs text h.0 f
        (ih (add_module c st mbi text m s) h.1)

  pub fill_run-strs :
      (base : Bool) (cmdline : ℕ → List ℕ) (ms : List ModInfo) (index : ℕ) (s : Filling)
      → AllShort (run_texts c base cmdline ms index)
      → s.strs + total (run_texts c base cmdline ms index) < 2 ^ 64
      → (fill_run c st mbi base cmdline ms index s).strs
        ≡ s.strs + total (run_texts c base cmdline ms index)
  unfolding fill_run total
  fill_run-strs base cmdline [] index s h f = omega arith
  fill_run-strs base cmdline (m ∷ ms) index s h f =
      run_step base (is_base_module c m) (cmdline index) m (run_texts c base cmdline ms (suc index))
        (fill_run c st mbi base cmdline ms (suc index)) s
        (λ s' h' f'. fill_run-strs base cmdline ms (suc index) s' h' f') h f

  pub fill_internal-strs :
      (ms : List InternalModule) (s : Filling)
      → AllShort (internal_texts c ms)
      → s.strs + total (internal_texts c ms) < 2 ^ 64
      → (fill_internal c st mbi ms s).strs ≡ s.strs + total (internal_texts c ms)
  unfolding fill_internal total
  fill_internal-strs [] s h f = omega arith
  fill_internal-strs (m ∷ ms) s h f =
      next s.strs (total (internal_texts c ms)) (fill_internal c st mbi (m ∷ ms) s).strs m.cmdline
        h.0 f (fill_internal-strs ms (add_internal c st mbi m s) h.1)
