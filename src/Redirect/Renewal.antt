-- ===== src/Redirect/Renewal.antt =====
-- What the renewal of a lease does to the contexts that the kernel stamped before it.
use freedom_cloud.Common.{
  ℕ, ◌<◌, ◌≡◌, ◌≢◌, refl, ap, ◌∙◌, sym, arith, inl, inr, Bool, not, ◌&&◌, Option, some, List,
  length, leb, ◌==◌, ==_iff, Bool-cases, leb-eq_false,
}
use freedom_cloud.Fallible.{ok, bail_if->>-eq-ok, ok-injective}
use freedom_cloud.Redirect.{
  StrictRedirectTransport, StrictRedirectLeaseBinding, StrictRedirectContext, is_previous, renewed,
  read_u16, read_u32, read_u64, check_bound, parse_strict_redirect_context,
}
use freedom_cloud.Redirect.Checks.{field, parse_strict_redirect_context-checks}

renewed-fields :
    (binding : StrictRedirectLeaseBinding) (generation : ℕ) (next : StrictRedirectLeaseBinding)
    → renewed binding generation ≡ ok next
    → (binding.generation < generation)
      × (record binding { generation = generation; previous_generation = some binding.generation }
          ≡ next)
unfolding renewed
renewed-fields binding generation next h =
    let (advanced, e) = bail_if->>-eq-ok (leb generation binding.generation) _ _ h in
    (leb-eq_false _ _ advanced, ok-injective _ _ e)

abbrev rejected : ℕ → ℕ → Option ℕ → Bool
rejected n generation previous = not (n == generation) && not (is_previous previous n)

-- The reads of a context of the full size succeed.
module _ (bytes : List ℕ) (full : length bytes ≡ 112) where
  reads_u32 : read_u32 bytes 0 ≡ ok (field 0 4 bytes)
  unfolding read_u32
  reads_u32 = rw full refl

  reads_protocol : read_u16 bytes 4 ≡ ok (field 4 2 bytes)
  unfolding read_u16
  reads_protocol = rw full refl

  reads_size : read_u16 bytes 6 ≡ ok (field 6 2 bytes)
  unfolding read_u16
  reads_size = rw full refl

  reads_generation : read_u64 bytes 8 ≡ ok (field 8 8 bytes)
  unfolding read_u64
  reads_generation = rw full refl

-- The check reads nothing of the generations but whether they reject the context.
check_bound-generations :
    (bytes : List ℕ) (binding : StrictRedirectLeaseBinding) (generation : ℕ) (previous : Option ℕ)
    → rejected (field 8 8 bytes) generation previous
      ≡ rejected (field 8 8 bytes) binding.generation binding.previous_generation
    → check_bound bytes (record binding { generation = generation; previous_generation = previous })
      ≡ check_bound bytes binding
unfolding check_bound
check_bound-generations bytes binding generation previous same =
    elim (Bool-cases (length bytes == 112)) [
      | inl full ↦
          let n = (==_iff (length bytes) 112).0 full in
          rw
            (
              reads_u32 bytes n,
              reads_protocol bytes n,
              reads_size bytes n,
              reads_generation bytes n,
              same,
            )
            refl
      | inr other ↦ rw other refl
    ]

-- A context of the generation that is current before a renewal is read after it as it was before.
pub renewed-keeps :
    (bytes : List ℕ) (binding : StrictRedirectLeaseBinding) (t : StrictRedirectTransport)
    (generation : ℕ) (next : StrictRedirectLeaseBinding)
    → renewed binding generation ≡ ok next
    → field 8 8 bytes ≡ binding.generation
    → parse_strict_redirect_context bytes next t ≡ parse_strict_redirect_context bytes binding t
unfolding parse_strict_redirect_context
renewed-keeps bytes binding t generation next h current =
    let (_, e) = renewed-fields binding generation next h in
    rw
      (
        sym e,
        check_bound-generations bytes binding generation (some binding.generation)
            (rw current (same binding.generation generation binding.previous_generation)),
      )
      refl
  where
    same : (n g : ℕ) (p : Option ℕ) → rejected n g (some n) ≡ rejected n n p
    same n g p = ground arith

-- Two renewals later it is read no more.
pub renewed_twice-rejects :
    (bytes : List ℕ) (binding : StrictRedirectLeaseBinding) (t : StrictRedirectTransport)
    (second third : ℕ) (next last : StrictRedirectLeaseBinding)
    → renewed binding second ≡ ok next
    → renewed next third ≡ ok last
    → field 8 8 bytes ≡ binding.generation
    → (c : StrictRedirectContext) → parse_strict_redirect_context bytes last t ≢ ok c
renewed_twice-rejects bytes binding t second third next last h k current c p =
    let (above, e) = renewed-fields binding second next h in
    let (further, f) = renewed-fields next third last k in
    let stamped = (parse_strict_redirect_context-checks bytes last t c p).1 in
    elim stamped [
      | inl q ↦
          omega
            (arith, above, further, current, q, ap (λ b. b.generation) e, ap (λ b. b.generation) f)
      | inr q ↦
          let same : next.generation ≡ field 8 8 bytes =
            some_injective _ _ (ap (λ b. b.previous_generation) f ∙ q) in
          omega (arith, above, current, same, ap (λ b. b.generation) e)
    ]
  where
    some_injective : (a b : ℕ) → some a ≡ some b → a ≡ b
    some_injective a b e = cc
