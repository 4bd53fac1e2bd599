-- ===== src/Hunt/Miner/Search.antt =====
-- What a miner reports, and in which order it tries the texts.
use sp.Base.{
  ℕ, ◌+◌, ◌≡◌, refl, sym, ap, ◌∙◌, ◌⊎◌, inl, inr, false, ◌&&◌, none, some, [], ◌∷◌, arith, Bytes,
  ltb, ◌==◌, Bool-cases,
}
use sp.Hunt.Md5.{Md5}
use sp.Hunt.Digest.{hex, leading_zeros}
use sp.Hunt.Protocol.{Treasure}
use sp.Hunt.Miner.{Mine, has_zeros, candidate, advance, hash_candidate, judge, try_one, report}

has_zeros_lem :
    (n ptr : ℕ) (s : Bytes)
    → has_zeros n ptr s ≡ (ltb ptr (n + 1) && (ptr + leading_zeros s == n + 1))
unfolding has_zeros leading_zeros
has_zeros_lem n p [] = ground arith
has_zeros_lem n p (c ∷ []) = ground arith
has_zeros_lem n p (c ∷ d ∷ s) = ground (arith, has_zeros_lem n (p + 1) (d ∷ s))

module _ (m : Md5) where
  open m use {Ctx, update, final}

  -- The digest of the text that is tried next, in hex.
  abbrev pub digest_text : Mine Ctx → Bytes
  digest_text s = hex (final (update s.md_context (candidate m (advance m s))))

  -- A treasure is honest for a context and a count: it continues that context by its own text, its
  -- hash is the digest of the result in hex, and that has one zero more at the front.
  pub record IsHonest (ctx : Ctx) (n : ℕ) (t : Treasure Ctx) : Type 0 where
    pub continued : t.ctx ≡ update ctx t.append
    pub hashed : t.hash ≡ hex (final t.ctx)
    pub counted : t.n_treasure ≡ n + 1
    pub zeros : leading_zeros t.hash ≡ n + 1

  -- What the guard at the head of a round leaves alone.
  advance_keeps :
      (s : Mine Ctx)
      → ((advance m s).md_context ≡ s.md_context)
        × ((advance m s).n_treasure ≡ s.n_treasure)
        × ((advance m s).work ≡ s.work)
  unfolding advance
  advance_keeps s = ground arith

  pub judge_reports :
      (s : Mine Ctx) (text : Bytes)
      → (((judge m s text).1 ≡ some (report m s text))
          × ((judge m s text).0.work ≡ false)
          × (leading_zeros s.working_hash ≡ s.n_treasure + 1))
        ⊎ (((judge m s text).1 ≡ none)
            × ((judge m s text).0 ≡ s)
            × (¬ (leading_zeros s.working_hash ≡ s.n_treasure + 1)))
  unfolding judge
  judge_reports s text = elim (Bool-cases (has_zeros s.n_treasure 0 s.working_hash)) [
    | inl e ↦ rw e (inl (refl, refl, ground (arith, has_zeros_lem s.n_treasure 0 s.working_hash)))
    | inr e ↦ rw e (inr (refl, refl, ground (arith, has_zeros_lem s.n_treasure 0 s.working_hash)))
  ]

  abbrev reported : Mine Ctx → Treasure Ctx
  reported s = record {
    ctx = update s.md_context (candidate m (advance m s));
    n_treasure = s.n_treasure + 1;
    name = (advance m s).name;
    append = candidate m (advance m s);
    hash = digest_text s;
  }

  -- A round reports exactly when the digest has one zero more at the front than the count: then
  -- the report is honest and the miner rests. Otherwise it keeps its context and its count.
  pub try_one-reports :
      (s : Mine Ctx)
      → ((t : Treasure Ctx) × ((try_one m s).1 ≡ some t)
          × IsHonest s.md_context s.n_treasure t
          × (t.append ≡ candidate m (advance m s))
          × ((try_one m s).0.work ≡ false)
          × (leading_zeros (digest_text s) ≡ s.n_treasure + 1))
        ⊎ (((try_one m s).1 ≡ none)
            × ((try_one m s).0.work ≡ s.work)
            × ((try_one m s).0.md_context ≡ s.md_context)
            × ((try_one m s).0.n_treasure ≡ s.n_treasure)
            × (¬ (leading_zeros (digest_text s) ≡ s.n_treasure + 1)))
  unfolding try_one
  try_one-reports s =
      let a = advance m s in
      let (ctx, n, work) = advance_keeps s in
      let zeros : leading_zeros (hex (final (update a.md_context (candidate m a))))
          ≡ leading_zeros (digest_text s) =
        ap (λ c. leading_zeros (hex (final (update c (candidate m a))))) ctx in
      let count : a.n_treasure + 1 ≡ s.n_treasure + 1 = ap (λ k. k + 1) n in
      elim (judge_reports
        (hash_candidate m (record a { start_tmp = a.start_tmp + 1 }) (candidate m a))
        (candidate m a)) [
          | inl h ↦ inl (
            reported s,
            h.0 ∙ (λ i. some (record {
              ctx = update (ctx i) (candidate m a);
              n_treasure = n i + 1;
              name = a.name;
              append = candidate m a;
              hash = hex (final (update (ctx i) (candidate m a)));
            })),
            record {
              continued = refl;
              hashed = refl;
              counted = refl;
              zeros = sym zeros ∙ h.2 ∙ count;
            },
            refl,
            h.1,
            sym zeros ∙ h.2 ∙ count,
          )
          | inr h ↦ inr (
            h.0,
            ap (λ (x : Mine Ctx). x.work) h.1 ∙ work,
            ap (λ (x : Mine Ctx). x.md_context) h.1 ∙ ctx,
            ap (λ (x : Mine Ctx). x.n_treasure) h.1 ∙ n,
            λ e. h.2 (zeros ∙ e ∙ sym count),
          )
        ]
