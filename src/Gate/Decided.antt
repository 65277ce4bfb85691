-- ===== src/Gate/Decided.antt =====
-- What leads a query to each of its results, and the cases of its checks.
use decision_memory.Prelude.{
  Bool-cases, ◌==◌, nat_eq, pair_eq, list_eq, is_some, some_inj, All, In, here, there, ℕ, ◌≤◌, ◌<◌,
  ◌≡◌, ◌≢◌, refl, ap, ◌⊎◌, inl, inr, true, false, Option, none, some, List, [], ◌∷◌,
}
use decision_memory.Text.{Text, is_empty, strip}
use decision_memory.Dto.{ActiveChunkDescriptor}
use decision_memory.Filters.{}
use decision_memory.Filters.Rows.{Passes}
use decision_memory.Freshness.{FreshnessState, current, drift, unknown, incompatible, Store}
use decision_memory.Retrieval.Ranking.{}
use decision_memory.Gate.{
  store_format_is, parity, failed, abstained, raised, ready, is_stale, QueryRequest, FailureCode,
  empty_question, uninitialized, unsupported_format, incompatible_signature, refused,
  overlimit_question, Gate,
}
use decision_memory.Gate.Selected.{HasSelection}

module _ (count_tokens : Text → ℕ) (running_signature : Text) (request : QueryRequest)
    (store : Store) (measured : FreshnessState) where
  abbrev pub IsAsked : Type 0
  IsAsked = strip request.question ≢ []

  abbrev pub IsBuilt : Type 0
  IsBuilt = IsAsked × (store.generation_id ≢ none)

  abbrev pub IsSupported : Type 0
  IsSupported = IsBuilt × (store.store_format ≡ some 2)

  abbrev pub IsSigned : Type 0
  IsSigned = IsSupported × (store.pipeline_signature ≡ running_signature)

  -- The index is not stale, or the request allows that it is.
  abbrev pub IsLetIn : Type 0
  IsLetIn = IsSigned × ((request.allow_stale ≡ true) ⊎ ((measured ≢ drift) × (measured ≢ unknown)))

  -- The snapshot is read, and some chunk of it passes the filters.
  abbrev pub IsSelected : Type 0
  IsSelected =
      (active : List ActiveChunkDescriptor) × (store.active_chunks ≡ some active)
      × HasSelection request.filters active

  -- Why a query fails, and the exit code and the freshness of the result.
  abbrev pub FailsFor : FailureCode → ℕ → FreshnessState → Type 0
  FailsFor empty_question exit state =
      (strip request.question ≡ []) × (exit ≡ 2) × (state ≡ current)
  FailsFor uninitialized exit state =
      IsAsked × (store.generation_id ≡ none) × (exit ≡ 1) × (state ≡ current)
  FailsFor unsupported_format exit state =
      IsBuilt × (store.store_format ≢ some 2) × (exit ≡ 1) × (state ≡ current)
  FailsFor incompatible_signature exit state =
      IsSupported
      × (store.pipeline_signature ≢ running_signature)
      × (exit ≡ 1)
      × (state ≡ incompatible)
  FailsFor refused exit state =
      IsSigned
      × (request.allow_stale ≡ false)
      × ((measured ≡ drift) ⊎ (measured ≡ unknown))
      × (exit ≡ 1)
      × (state ≡ measured)
  FailsFor overlimit_question exit state =
      IsLetIn
      × IsSelected
      × (8191 < count_tokens request.question)
      × (exit ≡ 2)
      × (state ≡ measured)
  FailsFor parity exit state =
      IsLetIn
      × IsSelected
      × (count_tokens request.question ≤ 8191)
      × (store.parity_problems ≢ [])
      × (exit ≡ 1)
      × (state ≡ measured)

  -- What has led to a result. The conditions of two results exclude each other.
  abbrev pub IsDecided : Gate → Type 0
  IsDecided (failed code exit state) = FailsFor code exit state
  IsDecided (abstained state rows) =
      (active : List ActiveChunkDescriptor) × IsLetIn
      × (store.active_chunks ≡ some active)
      × All (λ chunk. ¬ Passes request.filters chunk) active
      × (state ≡ measured)
  IsDecided raised = IsLetIn × (store.active_chunks ≡ none)
  IsDecided (ready state rows table) =
      IsLetIn
      × IsSelected
      × (count_tokens request.question ≤ 8191)
      × (store.parity_problems ≡ [])
      × (state ≡ measured)

pub empty-cases {ℓ} :
    {A : Type ℓ} (xs : List A)
    → ((is_empty xs ≡ true) × (xs ≡ [])) ⊎ ((is_empty xs ≡ false) × (xs ≢ []))
empty-cases [] = inl (refl, refl)
empty-cases (x ∷ xs) = inr (refl, λ e. (cc))

pub In-some {ℓ} : {A : Type ℓ} {x : A} {xs : List A} → In x xs → is_empty xs ≡ false
In-some (here e) = refl
In-some (there m) = refl

pub generation-cases :
    (generation : Option Text)
    → ((is_some generation ≡ true) × (generation ≢ none))
      ⊎ ((is_some generation ≡ false) × (generation ≡ none))
generation-cases none = inr (refl, refl)
generation-cases (some g) = inl (refl, λ e. (cc))

pub signature-cases :
    (stored running : Text)
    → (((stored == running) ≡ true) × (stored ≡ running))
      ⊎ (((stored == running) ≡ false) × (stored ≢ running))
signature-cases stored running = elim (Bool-cases (stored == running)) [
  | inl same ↦ inl (same, (list_eq.beq_iff stored running).0 same)
  | inr other ↦ inr (other, λ e. let same = (list_eq.beq_iff stored running).1 e in (cc))
]

pub format-cases :
    (format : Option ℕ)
    → ((store_format_is format ≡ true) × (format ≡ some 2))
      ⊎ ((store_format_is format ≡ false) × (format ≢ some 2))
format-cases none = inr (refl, λ e. (cc))
format-cases (some format) = elim (Bool-cases (format == 2)) [
  | inl same ↦ inl (same, ap some ((nat_eq.beq_iff format 2).0 same))
  | inr other ↦ inr (other, λ e. let same = (nat_eq.beq_iff format 2).1 (some_inj e) in (cc))
]

pub stale-cases :
    (state : FreshnessState)
    → ((is_stale state ≡ true) × ((state ≡ drift) ⊎ (state ≡ unknown)))
      ⊎ ((is_stale state ≡ false) × (state ≢ drift) × (state ≢ unknown))
stale-cases current = inr (refl, (λ e. (cc)), λ e. (cc))
stale-cases drift = inl (refl, inl refl)
stale-cases unknown = inl (refl, inr refl)
stale-cases incompatible = inr (refl, (λ e. (cc)), λ e. (cc))
