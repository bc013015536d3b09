-- ===== src/Docs/Descriptions.antt =====
-- What is attached to a callable: resolve_markdown_descriptions of src/codekg/docs.py.
use my_kg_codebase.Prelude.{
  ◌≡◌, refl, sym, ap, ◌∙◌, true, false, inl, inr, Option, none, some, List, [], ◌∷◌, ◌++◌,
  append_assoc, append-nil, if◌then◌else◌, Bool-cases, Option-cases,
}
use my_kg_codebase.Prelude.Text.{Text, text_eq, text_eq_sound, contains}
use my_kg_codebase.Prelude.Dict.{Dict, lookup, lookup-insert}
use my_kg_codebase.Docs.Chunks.{
  DocChunk, append_text, describe_chunk, resolve_markdown_descriptions,
}

-- The text of a chunk once for each of its mentions of the name.
unfoldable pub mentioned : Text → Text → List Text → List Text
mentioned qname text [] = []
mentioned qname text (mention ∷ mentions) =
    let rest = mentioned qname text mentions in if text_eq mention qname then text ∷ rest else rest

-- The texts of the chunks that mention the name, in their order.
unfoldable pub mentioning : Text → List DocChunk → List Text
unfolding mentioned
mentioning qname [] = []
mentioning qname (chunk ∷ chunks) =
    mentioned qname chunk.text chunk.mentions ++ mentioning qname chunks

-- An entry with more texts; there is none as long as there is no text.
abbrev pub added : Option (List Text) → List Text → Option (List Text)
added entry [] = entry
added none (text ∷ texts) = some (text ∷ texts)
added (some old) (text ∷ texts) = some (old ++ text ∷ texts)

added-added :
    (entry : Option (List Text)) (a b : List Text) → added (added entry a) b ≡ added entry (a ++ b)
added-added entry [] b = refl
added-added none (x ∷ a) [] = rw (append-nil a) refl
added-added none (x ∷ a) (y ∷ b) = refl
added-added (some old) (x ∷ a) [] = rw (append-nil a) refl
added-added (some old) (x ∷ a) (y ∷ b) = ap some (append_assoc old (x ∷ a) (y ∷ b))

lookup-append_text :
    (name other text : Text) (descriptions : Dict (List Text))
    → lookup other (append_text name text descriptions)
      ≡ added (lookup other descriptions) (mentioned other text (name ∷ []))
unfolding append_text mentioned
lookup-append_text name other text descriptions = elim (Bool-cases (text_eq name other)) [
  | inl e ↦
      let same = text_eq_sound name other e in
      elim (Option-cases (lookup name descriptions)) [
        | inl absent ↦
            let known : lookup other descriptions ≡ none = rw (← same) absent in
            rw (append_text, absent, lookup-insert name other (text ∷ []) descriptions, e, known)
              refl
        | inr (old, present) ↦
            let known : lookup other descriptions ≡ some old = rw (← same) present in
            rw
              (
                append_text,
                present,
                lookup-insert name other (old ++ text ∷ []) descriptions,
                e,
                known,
              )
              refl
      ]
  | inr e ↦ elim (Option-cases (lookup name descriptions)) [
    | inl absent ↦
        rw (append_text, absent, lookup-insert name other (text ∷ []) descriptions, e) refl
    | inr (old, present) ↦
        rw (append_text, present, lookup-insert name other (old ++ text ∷ []) descriptions, e) refl
  ]
]

module _ (known : List Text) (name : Text) where
  -- Only a known name gets texts.
  abbrev allowed : List Text → List Text
  allowed texts = if contains name known then texts else []

  allowed-append : (a b : List Text) → allowed (a ++ b) ≡ allowed a ++ allowed b
  allowed-append a b = elim (Bool-cases (contains name known)) [
    | inl e ↦ rw e refl
    | inr e ↦ rw e refl
  ]

  allowed-nil : allowed [] ≡ []
  allowed-nil = elim (Bool-cases (contains name known)) [ inl e ↦ rw e refl | inr e ↦ rw e refl ]

  allowed-one :
      (text mention : Text) (descriptions : Dict (List Text))
      → lookup name
          (if contains mention known then append_text mention text descriptions else descriptions)
        ≡ added (lookup name descriptions) (allowed (mentioned name text (mention ∷ [])))
  unfolding mentioned
  allowed-one text mention descriptions = elim (Bool-cases (text_eq mention name)) [
    | inl e ↦
        let same = text_eq_sound mention name e in
        elim (Bool-cases (contains mention known)) [
          | inl k ↦
              let k' : contains name known ≡ true = rw (← same) k in
              rw (k, k') (lookup-append_text mention name text descriptions)
          | inr k ↦ let k' : contains name known ≡ false = rw (← same) k in rw (k, k') refl
        ]
    | inr e ↦ elim (Bool-cases (contains mention known)) [
      | inl k ↦ rw k (
          lookup-append_text mention name text descriptions
          ∙ rw e (sym (ap (added (lookup name descriptions)) allowed-nil)))
      | inr k ↦ rw (k, e) (sym (ap (added (lookup name descriptions)) allowed-nil))
    ]
  ]

  mentioned-append :
      (text mention : Text) (mentions : List Text)
      → mentioned name text (mention ∷ mentions)
        ≡ mentioned name text (mention ∷ []) ++ mentioned name text mentions
  unfolding mentioned
  mentioned-append text mention mentions = elim (Bool-cases (text_eq mention name)) [
    | inl e ↦ rw e refl
    | inr e ↦ rw e refl
  ]

  lookup-describe_chunk :
      (text : Text) (mentions : List Text) (descriptions : Dict (List Text))
      → lookup name (describe_chunk known text mentions descriptions)
        ≡ added (lookup name descriptions) (allowed (mentioned name text mentions))
  unfolding describe_chunk mentioned
  lookup-describe_chunk text [] descriptions =
      sym (ap (added (lookup name descriptions)) allowed-nil)
  lookup-describe_chunk text (mention ∷ mentions) descriptions =
      let first = mentioned name text (mention ∷ []) in
      let rest = mentioned name text mentions in
      lookup-describe_chunk text mentions
        (if contains mention known then append_text mention text descriptions else descriptions)
      ∙ ap (λ entry. added entry (allowed rest)) (allowed-one text mention descriptions)
      ∙ added-added (lookup name descriptions) (allowed first) (allowed rest)
      ∙ ap (added (lookup name descriptions)) (
          sym (allowed-append first rest)
          ∙ ap allowed (sym (mentioned-append text mention mentions)))

  lookup-resolve_from :
      (chunks : List DocChunk) (descriptions : Dict (List Text))
      → lookup name (resolve_markdown_descriptions chunks known descriptions)
        ≡ added (lookup name descriptions) (allowed (mentioning name chunks))
  unfolding resolve_markdown_descriptions mentioning
  lookup-resolve_from [] descriptions = sym (ap (added (lookup name descriptions)) allowed-nil)
  lookup-resolve_from (chunk ∷ chunks) descriptions =
      let first = mentioned name chunk.text chunk.mentions in
      let rest = mentioning name chunks in
      lookup-resolve_from chunks (describe_chunk known chunk.text chunk.mentions descriptions)
      ∙ ap (λ entry. added entry (allowed rest))
          (lookup-describe_chunk chunk.text chunk.mentions descriptions)
      ∙ added-added (lookup name descriptions) (allowed first) (allowed rest)
      ∙ ap (added (lookup name descriptions)) (sym (allowed-append first rest))

  -- For every sequence of chunks and every name: `resolve_markdown_descriptions` attaches to a known
  -- callable the texts of exactly the chunks that mention it, in the order of the chunks; a
  -- name that is not known, or that no chunk mentions, has no entry.
  pub lookup-resolve_markdown_descriptions :
      (chunks : List DocChunk)
      → lookup name (resolve_markdown_descriptions chunks known [])
        ≡ added none (if contains name known then mentioning name chunks else [])
  unfolding lookup
  lookup-resolve_markdown_descriptions chunks = lookup-resolve_from chunks []
