-- ===== src/Ppo/Project/Kept.antt =====
-- What the projection of a batch keeps.
use load_balancer.Prelude.{
  ℕ, zero, suc, ◌≡◌, refl, false, List, [], ◌∷◌, Option, none, some, ◌>>=◌, Bool-cases, inl, inr,
  OnSome,
}
use load_balancer.Prelude.All.{All}
use load_balancer.Double.{Double, float, ◌⊖◌}
use load_balancer.Double.Laws.{IsOrdered, ◌≲◌, le-fmax_right}
use load_balancer.Ppo.Project.{
  cut_at, simplex_project, project_rows, any_violated, descend_rows, project_rounds, cbf_project,
}

-- What holds of the value of a chain.
OnSome-bind {ℓ κ} :
    {A B : Type 0} (P : A → Type ℓ) (Q : B → Type κ) (o : Option A) (f : A → Option B)
    → OnSome P o
    → ((a : A) → P a → OnSome Q (f a))
    → OnSome Q (o >>= f)
OnSome-bind P Q none f h k = tt
OnSome-bind P Q (some a) f h k = k a h

OnSome-always {κ} :
    {A B : Type 0} (Q : B → Type κ) (o : Option A) (f : A → B)
    → ((a : A) → Q (f a))
    → OnSome Q (o >>= λ a. some (f a))
OnSome-always Q none f k = tt
OnSome-always Q (some a) f k = k a

module _ {F : Type 0} ⦃d : Double F⦄ (laws : IsOrdered F) where
  abbrev pub Nonneg : List F → Type 0
  Nonneg = All (λ (x : F). float 0 ≲ x)

  cut_at-Nonneg : (v : List F) (theta : F) → Nonneg (cut_at v theta)
  cut_at-Nonneg [] theta = tt
  cut_at-Nonneg (x ∷ v) theta = (le-fmax_right laws (x ⊖ theta) (float 0), cut_at-Nonneg v theta)

  simplex_project-Nonneg : (v : List F) → OnSome Nonneg (simplex_project v)
  unfolding simplex_project
  simplex_project-Nonneg v = OnSome-always {A = F} Nonneg _ _ (λ c. cut_at-Nonneg v _)

  project_rows-Nonneg : (rows : List (List F)) → OnSome (All Nonneg) (project_rows rows)
  project_rows-Nonneg [] = tt
  project_rows-Nonneg (v ∷ rows) =
      OnSome-bind Nonneg (All Nonneg) (simplex_project v) _ (simplex_project-Nonneg v) (λ w hw.
        OnSome-bind (All Nonneg) (All Nonneg) (project_rows rows) _ (project_rows-Nonneg rows)
          (λ ws hs. (hw, hs)))

  -- Without a violation nothing is changed.
  cbf_project_safe :
      (lam cap lr : F) (max_iter : ℕ) (weights loads : List (List F))
      → any_violated cap loads weights ≡ false
      → cbf_project lam cap lr max_iter weights loads ≡ some weights
  unfolding cbf_project project_rounds
  cbf_project_safe lam cap lr zero weights loads h = refl
  cbf_project_safe lam cap lr (suc n) weights loads h = rw h refl

  project_rounds-Nonneg :
      (lam cap lr : F) (raw loads : List (List F)) (rounds : ℕ) (ws : List (List F))
      → All Nonneg ws
      → OnSome (All Nonneg) (project_rounds lam cap lr raw loads rounds ws)
  unfolding project_rounds
  project_rounds-Nonneg lam cap lr raw loads zero ws h = h
  project_rounds-Nonneg lam cap lr raw loads (suc rounds) ws h =
      elim (Bool-cases (any_violated cap loads ws)) [
        | inr safe ↦ rw safe h
        | inl unsafe ↦ rw unsafe (
            OnSome-bind (All Nonneg) (All Nonneg)
              (project_rows (descend_rows lam cap lr ws raw loads)) _
              (project_rows-Nonneg (descend_rows lam cap lr ws raw loads))
              (λ next hn. project_rounds-Nonneg lam cap lr raw loads rounds next hn))
      ]

  -- A batch of weights that are not negative is projected, if no exception is raised, to weights that
  -- are not negative either.
  pub cbf_project-Nonneg :
      (lam cap lr : F) (max_iter : ℕ) (weights loads : List (List F))
      → All Nonneg weights
      → OnSome (All Nonneg) (cbf_project lam cap lr max_iter weights loads)
  unfolding cbf_project
  cbf_project-Nonneg lam cap lr max_iter weights loads h =
      project_rounds-Nonneg lam cap lr weights loads max_iter weights h
