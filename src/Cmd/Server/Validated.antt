-- ===== src/Cmd/Server/Validated.antt =====
-- What is validated before the server runs.
use minefield.Prelude.{◌≡◌, refl, ◌≢◌, ◌⊎◌, inl, inr, arith, true, Bool-cases, ◌==◌, string_eq, ok}
use minefield.Cmd.Server.{Options, Host, persistent_pre_run, provide_storage}

module _ {W S C : Type 0} (host : Host W S C) where
  -- Options that `PersistentPreRunE` accepts make `ProvideStorage` open Redis at an address that is
  -- not empty, or SQLite with a path or in memory; it then knows the type of storage.
  pub accepted_lem :
      (o : Options) (s : W)
      → persistent_pre_run o ≡ ok tt
      → ((o.storage_type ≡ "redis")
          × (o.storage_addr ≢ "")
          × (provide_storage host o s ≡ host.new_redis_storage o.storage_addr s))
        ⊎ ((o.storage_type ≡ "sqlite")
            × ((o.storage_path ≢ "") ⊎ (o.use_in_memory ≡ true))
            × (provide_storage host o s ≡ host.new_sql_storage o.storage_path o.use_in_memory s))
  unfolding persistent_pre_run provide_storage
  accepted_lem o s h = elim (Bool-cases (o.storage_type == "redis")) [
    | inl redis ↦ inl (
      (string_eq.beq_iff o.storage_type "redis").0 redis,
      λ e. ground (arith, h, redis, (string_eq.beq_iff o.storage_addr "").1 e),
      rw redis refl,
    )
    | inr other ↦ elim (Bool-cases (o.storage_type == "sqlite")) [
      | inl sqlite ↦ inr (
        (string_eq.beq_iff o.storage_type "sqlite").0 sqlite,
        elim (Bool-cases o.use_in_memory) [
          | inl memory ↦ inr memory
          | inr on_disk ↦ inl (λ e.
              ground (arith, h, other, sqlite, on_disk, (string_eq.beq_iff o.storage_path "").1 e))
        ],
        rw (other, sqlite) refl,
      )
      | inr neither ↦ absurd (ground (arith, h, other, neither))
    ]
  ]
