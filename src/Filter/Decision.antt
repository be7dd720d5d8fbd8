-- ===== src/Filter/Decision.antt =====
-- Keep against the rules it implements.
use cpu_process_exporter.Base.{
  ◌≡◌, ◌≢◌, ◌↔◌, ◌⊎◌, inl, inr, refl, sym, ap, Bool, true, false, ◌||◌, List, [], ◌∷◌, ◌++◌, Bytes,
  eqb, eqb_iff, has_prefix, is_empty, join, any, Any, All, Bool-cases, ◌∙◌, arith,
}
use cpu_process_exporter.Config.{is_nil}
use cpu_process_exporter.Filter.{Filter, Input, contains, included, joined, keep}
use cpu_process_exporter.Regexp.{Regexp}

any-false :
    {A : Type 0} (p : A → Bool) (P : A → Type 0)
    → ((x : A) → (p x ≡ false) ↔ P x)
    → (xs : List A) → (any p xs ≡ false) ↔ All P xs
any-false p P each [] = ground arith
any-false p P each (x ∷ xs) = ground (arith, each x, any-false p P each xs)

false-ne-true : false ≢ true
false-ne-true h = cc

any-true :
    {A : Type 0} (p : A → Bool) (P : A → Type 0)
    → ((x : A) → (p x ≡ true) ↔ P x)
    → (xs : List A) → (any p xs ≡ true) ↔ Any P xs
any-true p P each [] = (λ h. false-ne-true h, λ h. absurd h)
any-true p P each (x ∷ xs) = ground (arith, each x, any-true p P each xs)

other_iff : (s x : Bytes) → (eqb x s ≡ false) ↔ (x ≢ s)
other_iff s x = ground (arith, eqb_iff x s)

has_prefix_yes : (s p : Bytes) → has_prefix s p ≡ true → (t : Bytes) × (s ≡ p ++ t)
unfolding has_prefix
has_prefix_yes s [] h = (s, refl)
has_prefix_yes [] (b ∷ p) h = absurd (cc)
has_prefix_yes (c ∷ s) (b ∷ p) h =
    let (t, is) = has_prefix_yes s p (ground arith) in (t, ground arith)

has_prefix-append : (p t : Bytes) → has_prefix (p ++ t) p ≡ true
unfolding has_prefix
has_prefix-append [] t = refl
has_prefix-append (b ∷ p) t = ground (arith, has_prefix-append p t)

nil_iff : {A : Type 0} (xs : List A) → (is_nil xs ≡ true) ↔ (xs ≡ [])
nil_iff [] = ground arith
nil_iff (x ∷ xs) = ground arith

ne_nil : {A : Type 0} (xs : List A) → xs ≢ [] → is_nil xs ≡ false
ne_nil [] h = absurd (h refl)
ne_nil (x ∷ xs) h = refl

nil_ne : {A : Type 0} (xs : List A) → is_nil xs ≡ false → xs ≢ []
nil_ne xs h is = false-ne-true (sym h ∙ ap is_nil is)

ne_empty : (s : Bytes) → s ≢ [] → is_empty s ≡ false
ne_empty [] h = absurd (h refl)
ne_empty (x ∷ xs) h = refl

empty_ne : (s : Bytes) → is_empty s ≡ false → s ≢ []
empty_ne s h is = false-ne-true (sym h ∙ ap is_empty is)

no_prefix_iff : (s p : Bytes) → (has_prefix s p ≡ false) ↔ ((t : Bytes) → s ≢ p ++ t)
no_prefix_iff s p = (
  λ h t is. false-ne-true (sym h ∙ ap (λ x. has_prefix x p) is ∙ has_prefix-append p t),
  λ none_of. elim (Bool-cases (has_prefix s p)) [
    | inl found ↦ (let (t, is) = has_prefix_yes s p found in absurd (none_of t is))
    | inr no_prefix ↦ no_prefix
  ],
)

module _ {R M : Type 0} (rx : Regexp R M) (f : Filter R) (i : Input) where
  -- A pattern of the include list matches the comm, or the command line where there is one.
  abbrev pub Matches : R → Type 0
  Matches re =
      (rx.match_string re i.comm ≡ true)
      ⊎ ((i.cmdline ≢ []) × (rx.match_string re (join b' ' i.cmdline) ≡ true))

  -- The rules, one by one.
  pub record IsExported : Type 0 where
    pub is_included : (f.include_only ≡ []) ⊎ Any Matches f.include_only
    pub no_kernel : f.ignore_kernel ≡ true → i.is_kernel ≡ false
    pub other_comm : All (λ s. s ≢ i.comm) f.ignore_comm
    pub other_prefix : All (λ p. (t : Bytes) → i.comm ≢ p ++ t) f.ignore_prefix
    pub no_comm_match : All (λ re. rx.match_string re i.comm ≡ false) f.ignore_regex
    pub no_cmdline_match :
        i.cmdline ≢ [] → All (λ re. rx.match_string re (join b' ' i.cmdline) ≡ false) f.ignore_cmd
    pub other_user : i.user ≢ [] → All (λ u. u ≢ i.user) f.ignore_users

  -- The tests that Keep makes, as Booleans.
  abbrev comms : Bool
  comms = contains f.ignore_comm i.comm

  abbrev prefixes : Bool
  prefixes = any (λ p. has_prefix i.comm p) f.ignore_prefix

  abbrev regexes : Bool
  regexes = any (λ re. rx.match_string re i.comm) f.ignore_regex

  abbrev cmdlines : Bool
  cmdlines = any (λ re. rx.match_string re (join b' ' i.cmdline)) f.ignore_cmd

  abbrev users : Bool
  users = contains f.ignore_users i.user

  record Passes : Type 0 where
    inc : (is_nil f.include_only ≡ true) ⊎ (included rx f i ≡ true)
    kernel : f.ignore_kernel ≡ true → i.is_kernel ≡ false
    comm : comms ≡ false
    prefix : prefixes ≡ false
    regex : regexes ≡ false
    cmdline : is_nil i.cmdline ≡ false → cmdlines ≡ false
    user : is_empty i.user ≡ false → users ≡ false

  cmd_nil : is_nil f.ignore_cmd ≡ true → cmdlines ≡ false
  cmd_nil h = ap (any (λ re. rx.match_string re (join b' ' i.cmdline))) ((nil_iff f.ignore_cmd).0 h)

  keep-Passes : (keep rx f i).0 ≡ true → Passes
  unfolding keep
  keep-Passes h = record {
    inc = elim (Bool-cases (is_nil f.include_only)) [
      | inl none_listed ↦ inl none_listed
      | inr listed ↦ inr (ground arith)
    ];
    kernel = λ k. ground arith;
    comm = ground arith;
    prefix = ground arith;
    regex = ground arith;
    cmdline = λ k. ground (arith, cmd_nil);
    user = λ k. ground arith;
  }

  Passes-keep : Passes → (keep rx f i).0 ≡ true
  unfolding keep
  Passes-keep h = ground (arith, h.inc, h.kernel, h.comm, h.prefix, h.regex, h.cmdline, h.user)

  comm_iff : (comms ≡ false) ↔ All (λ s. s ≢ i.comm) f.ignore_comm
  comm_iff = any-false (λ s. eqb s i.comm) _ (other_iff i.comm) f.ignore_comm

  prefix_iff : (prefixes ≡ false) ↔ All (λ p. (t : Bytes) → i.comm ≢ p ++ t) f.ignore_prefix
  prefix_iff = any-false (λ p. has_prefix i.comm p) _ (no_prefix_iff i.comm) f.ignore_prefix

  regex_iff : (regexes ≡ false) ↔ All (λ re. rx.match_string re i.comm ≡ false) f.ignore_regex
  regex_iff = any-false (λ re. rx.match_string re i.comm) _ (λ re. (λ h. h, λ h. h)) f.ignore_regex

  cmdline_iff :
      (cmdlines ≡ false) ↔ All (λ re. rx.match_string re (join b' ' i.cmdline) ≡ false) f.ignore_cmd
  cmdline_iff =
      any-false (λ re. rx.match_string re (join b' ' i.cmdline)) _ (λ re. (λ h. h, λ h. h))
        f.ignore_cmd

  Matches-iff :
      (re : R)
      → ((rx.match_string re i.comm || rx.match_string re (joined rx i)) ≡ true) ↔ Matches re
  Matches-iff re = elim (Bool-cases (is_nil i.cmdline)) [
    | inl missing ↦ (
      λ h. inl (ground (arith, missing, h)),
      λ h. elim h [
        | inl comm ↦ ground (arith, comm)
        | inr (some_line, line) ↦ absurd (some_line ((nil_iff i.cmdline).0 missing))
      ],
    )
    | inr there ↦ (
      λ h. elim (Bool-cases (rx.match_string re i.comm)) [
        | inl comm ↦ inl comm
        | inr other ↦ inr (nil_ne i.cmdline there, ground (arith, there, h, other))
      ],
      λ h. elim h [
        | inl comm ↦ ground (arith, comm)
        | inr (some_line, line) ↦ ground (arith, there, line)
      ],
    )
  ]

  included_iff : (included rx f i ≡ true) ↔ Any Matches f.include_only
  included_iff =
      any-true (λ re. rx.match_string re i.comm || rx.match_string re (joined rx i)) Matches
        Matches-iff f.include_only

  user_iff : (users ≡ false) ↔ All (λ u. u ≢ i.user) f.ignore_users
  user_iff = any-false (λ u. eqb u i.user) _ (other_iff i.user) f.ignore_users

  -- Keep exports a process where no rule of the filter speaks against it, and only there: with an
  -- include list, some of its patterns matches the comm or the command line; no kernel thread where
  -- these are ignored; the comm is none of those listed, begins with no listed prefix and is matched by
  -- no listed pattern; no pattern matches a command line that is there; a user that is known is none of
  -- those listed.
  pub keep_iff : ((keep rx f i).0 ≡ true) ↔ IsExported
  keep_iff = (
    λ h.
        let passes = keep-Passes h in
        record {
          is_included = elim passes.inc [
            | inl none_listed ↦ inl ((nil_iff f.include_only).0 none_listed)
            | inr found ↦ inr (included_iff.0 found)
          ];
          no_kernel = passes.kernel;
          other_comm = comm_iff.0 passes.comm;
          other_prefix = prefix_iff.0 passes.prefix;
          no_comm_match = regex_iff.0 passes.regex;
          no_cmdline_match = λ there. cmdline_iff.0 (passes.cmdline (ne_nil i.cmdline there));
          other_user = λ there. user_iff.0 (passes.user (ne_empty i.user there));
        },
    λ h. Passes-keep (record {
      inc = elim h.is_included [
        | inl none_listed ↦ inl ((nil_iff f.include_only).1 none_listed)
        | inr found ↦ inr (included_iff.1 found)
      ];
      kernel = h.no_kernel;
      comm = comm_iff.1 h.other_comm;
      prefix = prefix_iff.1 h.other_prefix;
      regex = regex_iff.1 h.no_comm_match;
      cmdline = λ there. cmdline_iff.1 (h.no_cmdline_match (nil_ne i.cmdline there));
      user = λ there. user_iff.1 (h.other_user (empty_ne i.user there));
    }),
  )
