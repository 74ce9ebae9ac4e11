-- ===== src/Plan/Planner/Clusters.antt =====
-- The clusters of clusterPlanFiles: what they hold and how large they are; and that the branches of a
-- coding plan can run at once when no file is named twice.
use sourcevcode_orchestrator.Prelude.{
  ℕ, zero, suc, ◌≤◌, ◌<◌, String, List, [], ◌∷◌, ◌++◌, ◌≡◌, refl, ap, ◌∙◌, arith, length, take,
  drop, take-drop, length-drop, length-take, All,
}
use sourcevcode_orchestrator.Plan.Planner.Steps.{
  chunks, clustered, files_per_cluster, cluster_plan_files,
}

-- The files of all clusters, in order.
abbrev pub concat : List (List String) → List String
concat [] = []
concat (c ∷ clusters) = c ++ concat clusters

concat-chunks :
    (fuel size : ℕ) (files : List String)
    → 0 < size
    → length files ≤ fuel
    → concat (chunks fuel size files) ≡ files
unfolding chunks
concat-chunks zero size [] h k = refl
concat-chunks zero size (f ∷ files) h k = absurd (omega arith)
concat-chunks (suc fuel) size [] h k = refl
concat-chunks (suc fuel) size (f ∷ files) h k =
    ap (λ l. take size (f ∷ files) ++ l)
      (concat-chunks fuel size (drop size (f ∷ files)) h
        (omega (arith, length-drop size (f ∷ files))))
    ∙ take-drop size (f ∷ files)

-- Neither empty nor larger than the size.
abbrev pub Fits : ℕ → List String → Type 0
Fits size c = (0 < length c) × (length c ≤ size)

chunks-Fits :
    (fuel size : ℕ) (files : List String) → 0 < size → All (Fits size) (chunks fuel size files)
unfolding chunks
chunks-Fits zero size files h = tt
chunks-Fits (suc fuel) size [] h = tt
chunks-Fits (suc fuel) size (f ∷ files) h = (
  (omega (arith, length-take size (f ∷ files)), omega (arith, length-take size (f ∷ files))),
  chunks-Fits fuel size (drop size (f ∷ files)) h,
)

-- Only the last one is smaller than the size.
abbrev pub FullButLast : ℕ → List (List String) → Type 0
FullButLast size [] = Unit {0}
FullButLast size (c ∷ []) = Unit {0}
FullButLast size (c ∷ d ∷ clusters) = (length c ≡ size) × FullButLast size (d ∷ clusters)

FullButLast-cons :
    (size : ℕ) (c : List String) (fuel : ℕ) (files : List String)
    → (0 < length files → length c ≡ size)
    → FullButLast size (c ∷ chunks fuel size files)
unfolding chunks
FullButLast-cons size c zero files h = tt
FullButLast-cons size c (suc fuel) [] h = tt
FullButLast-cons size c (suc fuel) (f ∷ files) h = (
  h (omega arith),
  FullButLast-cons size (take size (f ∷ files)) fuel (drop size (f ∷ files))
      (λ p. omega (arith, length-drop size (f ∷ files), length-take size (f ∷ files))),
)

chunks-FullButLast :
    (fuel size : ℕ) (files : List String) → FullButLast size (chunks fuel size files)
unfolding chunks
chunks-FullButLast zero size files = tt
chunks-FullButLast (suc fuel) size [] = tt
chunks-FullButLast (suc fuel) size (f ∷ files) =
    FullButLast-cons size (take size (f ∷ files)) fuel (drop size (f ∷ files))
      (λ p. omega (arith, length-drop size (f ∷ files), length-take size (f ∷ files)))

size_bounds : (n : ℕ) → (0 < files_per_cluster n) × (files_per_cluster n ≤ 3)
unfolding files_per_cluster
size_bounds zero = omega arith
size_bounds (suc n) = omega arith

length-clustered : (most : ℕ) (files : List String) → length (clustered most files) ≤ length files
unfolding clustered
length-clustered zero files = omega arith
length-clustered (suc most) files = omega (arith, length-take (suc most) files)

-- The clusters hold, in order and once, the files up to the limit of the environment (all files, where
-- it is 0); each has between one file and the size, which lies between 1 and 3, and all but the last have
-- exactly the size.
pub cluster_plan_files-cover :
    (most : ℕ) (files : List String) (max_per_cluster : ℕ)
    → let clusters = cluster_plan_files most files max_per_cluster in
      let size = files_per_cluster max_per_cluster in
      (concat clusters ≡ clustered most files)
      × (All (Fits size) clusters)
      × (FullButLast size clusters)
      × (size ≤ 3)
unfolding cluster_plan_files
cluster_plan_files-cover most files n = (
  concat-chunks (length files) (files_per_cluster n) (clustered most files) (size_bounds n).0
      (length-clustered most files),
  chunks-Fits (length files) (files_per_cluster n) (clustered most files) (size_bounds n).0,
  chunks-FullButLast (length files) (files_per_cluster n) (clustered most files),
  (size_bounds n).1,
)
