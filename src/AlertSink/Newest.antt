-- ===== src/AlertSink/Newest.antt =====
-- The alerts that are kept are the newest ones.
use load_balancer.Prelude.{ℕ, zero, suc, ◌≡◌, refl, ap, List, [], ◌∷◌, Option, none, some, take}
use load_balancer.AlertSink.{
  Route, root, health, alerts, webhook, other, Entry, all_alerts, max_alerts, do_get, do_post,
}

take_again : {A : Type 0} (n : ℕ) (xs : List A) → take n (take (suc n) xs) ≡ take n xs
take_again zero xs = refl
take_again (suc n) [] = refl
take_again (suc n) (x ∷ xs) = ap (λ ys. x ∷ ys) (take_again n xs)

-- What has been cut is not missed by a later cut.
take_cons :
    {A : Type 0} (n : ℕ) (x : A) (xs : List A)
    → take (suc n) (x ∷ take (suc n) xs) ≡ take (suc n) (x ∷ xs)
take_cons n x xs = ap (λ ys. x ∷ ys) (take_again n xs)

module _ {A : Type 0} where
  -- The requests one after the other.
  pub post_all : List (Route × Option (Entry A)) → List (Entry A) → List (Entry A)
  post_all [] kept = kept
  post_all ((path, body) ∷ posts) kept = post_all posts (do_post path body kept).0

  -- An entry that comes to the webhook stands before the older ones.
  pub with_entry : Route → Option (Entry A) → List (Entry A) → List (Entry A)
  with_entry webhook (some e) older = e ∷ older
  with_entry _ body older = older

  -- All the entries that have come, the last one first.
  pub newest_first : List (Route × Option (Entry A)) → List (Entry A) → List (Entry A)
  newest_first [] older = older
  newest_first ((path, body) ∷ posts) older = newest_first posts (with_entry path body older)

  do_post-take :
      (path : Route) (body : Option (Entry A)) (older : List (Entry A))
      → (do_post path body (take max_alerts older)).0 ≡ take max_alerts (with_entry path body older)
  unfolding do_post with_entry
  do_post-take webhook none older = refl
  do_post-take webhook (some e) older = take_cons 99 e older
  do_post-take root body older = refl
  do_post-take health body older = refl
  do_post-take alerts body older = refl
  do_post-take other body older = refl

  post_all-take :
      (posts : List (Route × Option (Entry A))) (older : List (Entry A))
      → post_all posts (take max_alerts older) ≡ take max_alerts (newest_first posts older)
  unfolding post_all newest_first
  post_all-take [] older = refl
  post_all-take ((path, body) ∷ posts) older =
      rw (do_post-take path body older) (post_all-take posts (with_entry path body older))

  -- Whatever requests come, those with a broken body and those with no list of alerts among them: the
  -- alerts that are shown are the newest hundred of the entries that have come, the last one first.
  pub do_get-newest :
      (posts : List (Route × Option (Entry A)))
      → do_get alerts (post_all posts []) ≡ all_alerts (take max_alerts (newest_first posts []))
  unfolding do_get
  do_get-newest posts = ap all_alerts (post_all-take posts [])
