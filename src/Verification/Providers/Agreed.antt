-- ===== src/Verification/Providers/Agreed.antt =====
-- Where the evidence of `readIndependentEvidence` comes from, packages/verification/src/index.ts.
use agentplace.Prelude.{
  ℕ, zero, suc, ◌≤◌, ◌≡◌, refl, Bool, true, false, not, ◌||◌, List, [], ◌∷◌, Option, Result, ok,
  throw, arith, throw_if-eq-ok, ok-injective, includes, Memᴰ, ◌===◌, ===-refl, Bool-cases, inl, inr,
  sym, ◌∙◌, subst, Distinct, map, length, String,
}
use agentplace.Text.{Text, text_eq, is_empty}
use agentplace.Verification.Types.{RpcProvider, ChainEvidence, IndependentEvidence}
use agentplace.Verification.Providers.{
  RpcError, url_of, providers_from, rpc_providers, RpcAnswers, read_from_provider, on_read, gather,
  critical_evidence_signature, same_signature, settle_reads, read_independent_evidence, candidates,
}

abbrev Reads : Type 0
Reads = List ChainEvidence × List (String × RpcError)

module _ (call : RpcProvider → Result RpcError RpcAnswers) (chain : ℕ) where
  abbrev pub IsAnswer : RpcProvider → ChainEvidence → Type 0
  IsAnswer p e = read_from_provider call chain p ≡ ok e

  -- The first answers, each of a later provider.
  abbrev pub Answers : List RpcProvider → List ChainEvidence → Type 0
  Answers ps [] = Unit {0}
  Answers ps (e ∷ []) = (p : RpcProvider) × Memᴰ p ps × IsAnswer p e
  Answers ps (e ∷ f ∷ more) =
      (p : RpcProvider) × (q : RpcProvider) × Memᴰ p ps
      × Memᴰ q ps
      × ((q.url === p.url) ≡ false)
      × IsAnswer p e
      × IsAnswer q f

  abbrev urls : List RpcProvider → List Text
  urls ps = map (λ (p : RpcProvider). p.url) ps

  other_url :
      (ps : List RpcProvider) (p q : RpcProvider)
      → includes (urls ps) p.url ≡ false
      → Memᴰ q ps
      → (q.url === p.url) ≡ false
  other_url [] p q h m = elim m [ ]
  other_url (x ∷ ps) p q h (Memᴰ.head e) =
      subst (λ (v : RpcProvider). (v.url === p.url) ≡ false) (sym e) (ground arith)
  other_url (x ∷ ps) p q h (Memᴰ.tail m) = other_url ps p q (ground arith) m

  later :
      (x : RpcProvider) (ps : List RpcProvider) (es : List ChainEvidence)
      → Answers ps es
      → Answers (x ∷ ps) es
  later x ps [] a = tt
  later x ps (e ∷ []) (p, m, a) = (p, Memᴰ.tail m, a)
  later x ps (e ∷ f ∷ more) (p, q, m, k, d, a, b) = (p, q, Memᴰ.tail m, Memᴰ.tail k, d, a, b)

  earlier :
      (x : RpcProvider) (ps : List RpcProvider) (e : ChainEvidence) (es : List ChainEvidence)
      → includes (urls ps) x.url ≡ false
      → IsAnswer x e
      → Answers ps es
      → Answers (x ∷ ps) (e ∷ es)
  earlier x ps e [] new a k = (x, Memᴰ.head refl, a)
  earlier x ps e (f ∷ []) new a (p, m, b) =
      (x, p, Memᴰ.head refl, Memᴰ.tail m, other_url ps x p new m, a, b)
  earlier x ps e (f ∷ g ∷ more) new a (p, q, m, k, d, b, c) =
      (x, p, Memᴰ.head refl, Memᴰ.tail m, other_url ps x p new m, a, b)

  gather-Answers :
      (wanted : ℕ) (ps : List RpcProvider)
      → Distinct (urls ps)
      → Answers ps (gather call chain wanted ps).0
        × (length (gather call chain wanted ps).0 ≤ wanted)
  unfolding gather on_read
  gather-Answers zero ps d = (tt, omega arith)
  gather-Answers (suc wanted) [] d = (tt, omega arith)
  gather-Answers (suc wanted) (p ∷ ps) (new, d) =
      split (read_from_provider call chain p) refl (gather-Answers wanted ps d)
        (gather-Answers (suc wanted) ps d)
    where
      split :
          (r : Result RpcError ChainEvidence)
          → read_from_provider call chain p ≡ r
          → Answers ps (gather call chain wanted ps).0
            × (length (gather call chain wanted ps).0 ≤ wanted)
          → Answers ps (gather call chain (suc wanted) ps).0
            × (length (gather call chain (suc wanted) ps).0 ≤ suc wanted)
          → Answers
              (p ∷ ps)
              (on_read call p r (gather call chain wanted ps) (gather call chain (suc wanted) ps)).0
            × (length
                  (on_read call p r
                    (gather call chain wanted ps)
                    (gather call chain (suc wanted) ps)).0
                ≤ suc wanted)
      split (ok e) h (a, n) k = (earlier p ps e _ new h a, omega arith)
      split (throw e) h k (a, n) = (later p ps _ a, n)

-- Evidence that was read: the primary one from a configured provider on the chain, and where it is
-- called cross-checked, another provider gave evidence with the same critical parts.
pub record IsAgreed (env : Text → Option Text) (call : RpcProvider → Result RpcError RpcAnswers)
    (chain : ℕ) (r : IndependentEvidence) : Type 0 where
  pub source : RpcProvider
  pub configured : Memᴰ source (rpc_providers env chain)
  pub answered : read_from_provider call chain source ≡ ok r.primary
  pub bounded : length r.providers ≤ 2
  pub checked :
      r.cross_checked ≡ true
      → (q : RpcProvider) × (f : ChainEvidence) × Memᴰ q (rpc_providers env chain)
        × ((q.url === source.url) ≡ false)
        × (read_from_provider call chain q ≡ ok f)
        × (same_signature (critical_evidence_signature r.primary) (critical_evidence_signature f)
            ≡ true)

providers_from-fresh :
    (t : Text) (seen : List Text) (cs : List (Option Text × String))
    → includes seen t ≡ true
    → includes (map (λ (p : RpcProvider). p.url) (providers_from seen cs)) t ≡ false
unfolding providers_from
providers_from-fresh t seen [] h = refl
providers_from-fresh t seen (c ∷ cs) h =
    elim (Bool-cases (is_empty (url_of c.0) || includes seen (url_of c.0))) [
      | inl y ↦ rw y (providers_from-fresh t seen cs h)
      | inr n ↦
          let other : (url_of c.0 === t) ≡ false = differs t seen (url_of c.0) h (ground arith) in
          rw n (rw other (providers_from-fresh t (url_of c.0 ∷ seen) cs (rw other h)))
    ]
  where
    differs :
        (t : Text) (seen : List Text) (u : Text)
        → includes seen t ≡ true
        → includes seen u ≡ false
        → (u === t) ≡ false
    differs t seen u p q = elim (Bool-cases (u === t)) [
      | inl y ↦
          let same = (text_eq.same_iff u t).0 y in
          absurd (never (sym (subst (λ v. includes seen v ≡ false) same q) ∙ p))
      | inr n ↦ n
    ]
      where
        never : false ≡ true → ⊥
        never e = cc

providers_from-Distinct :
    (seen : List Text) (cs : List (Option Text × String))
    → Distinct (map (λ (p : RpcProvider). p.url) (providers_from seen cs))
unfolding providers_from
providers_from-Distinct seen [] = tt
providers_from-Distinct seen (c ∷ cs) =
    elim (Bool-cases (is_empty (url_of c.0) || includes seen (url_of c.0))) [
      | inl y ↦ rw y (providers_from-Distinct seen cs)
      | inr n ↦ rw n (
        providers_from-fresh (url_of c.0) (url_of c.0 ∷ seen) cs (rw (===-refl (url_of c.0)) refl),
        providers_from-Distinct (url_of c.0 ∷ seen) cs,
      )
    ]

too_many : (k : ℕ) → suc (suc (suc k)) ≤ 2 → ⊥
too_many k h = omega arith

settle_reads-IsAgreed :
    (env : Text → Option Text) (call : RpcProvider → Result RpcError RpcAnswers) (chain : ℕ)
    (es : Reads) (r : IndependentEvidence)
    → Answers call chain (rpc_providers env chain) es.0
    → length es.0 ≤ 2
    → settle_reads es ≡ ok r
    → IsAgreed env call chain r
unfolding settle_reads
settle_reads-IsAgreed env call chain ([], errors) r a n h = cc
settle_reads-IsAgreed env call chain (e ∷ [], errors) r (p, m, a) n h =
    subst (IsAgreed env call chain) (ok-injective h) (record {
      source = p;
      configured = m;
      answered = a;
      bounded = omega arith;
      checked = λ c. cc;
    })
settle_reads-IsAgreed env call chain (e ∷ f ∷ [], errors) r (p, q, m, k, d, a, b) n h =
    let (agree, h₁) = throw_if-eq-ok _ _ _ h in
    subst (IsAgreed env call chain) (ok-injective h₁) (record {
      source = p;
      configured = m;
      answered = a;
      bounded = omega arith;
      checked = λ c. (q, f, k, d, b, not_false agree);
    })
  where
    not_false : {b : Bool} → not b ≡ false → b ≡ true
    not_false h = ground arith
settle_reads-IsAgreed env call chain (e ∷ f ∷ g ∷ more, errors) r a n h =
    absurd (too_many (length more) n)

-- The evidence that `readIndependentEvidence` returns comes from a configured provider of the chain,
-- of at most two that answered; and where it is cross-checked, a second provider, of another URL,
-- gave evidence for the transaction with the same critical parts.
pub read_independent_evidence-IsAgreed :
    (env : Text → Option Text) (call : RpcProvider → Result RpcError RpcAnswers) (chain : ℕ)
    (r : IndependentEvidence)
    → read_independent_evidence env call chain ≡ ok r
    → IsAgreed env call chain r
unfolding read_independent_evidence rpc_providers
read_independent_evidence-IsAgreed env call chain r h =
    let (_, h₁) = throw_if-eq-ok _ _ _ h in
    let (a, n) =
      gather-Answers call chain 2 (rpc_providers env chain)
        (providers_from-Distinct [] (candidates env chain)) in
    settle_reads-IsAgreed env call chain (gather call chain 2 (rpc_providers env chain)) r a n h₁
