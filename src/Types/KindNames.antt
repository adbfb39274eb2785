-- ===== src/Types/KindNames.antt =====
-- What the names of the kinds of participants are read as.
use dds_router.Base.{
  ◌≡◌, refl, sym, ◌∙◌, subst, ap, Bool, true, false, not, ◌&&◌, List, [], ◌∷◌, Text, text_eq,
  text_eq_eq, leb, if◌then◌else◌, is_empty, any, All,
}
use dds_router.Types.ParticipantKind.{
  ParticipantKind, invalid, blank, echo, dummy, simple_rtps, local_discovery_server,
  wan_discovery_server, wan_initial_peers, kind_string, kind_aliases, all_participant_kinds,
  first_alias, participant_kind_from_name,
}

-- No octet of the text is an upper case letter of ASCII.
abbrev pub is_lowercase : Text → Bool
is_lowercase [] = true
is_lowercase (c ∷ s) = not (leb 65 c && leb c 90) && is_lowercase s

any-All : (P : Text → Type 0) (s : Text) (l : List Text) → any (text_eq s) l ≡ true → All P l → P s
any-All P s [] h all = absurd (cc h)
any-All P s (x ∷ l) h (p, all) =
    elim (text_eq s x) as (λ b. (text_eq s x ≡ b) → P s) [
      | true ↦ λ e. subst P (sym (text_eq_eq s x e)) p
      | false ↦ λ e. any-All P s l (cc (h, e)) all
    ]
      refl

module _ (to_lowercase : Text → Text)
    (lowercase : (s : Text) → is_lowercase s ≡ true → to_lowercase s ≡ s) where
  any-lowercase :
      (s : Text) (l : List Text)
      → All (λ x. is_lowercase x ≡ true) l
      → any (λ str. text_eq s (to_lowercase str)) l ≡ any (text_eq s) l
  any-lowercase s [] h = refl
  any-lowercase s (x ∷ l) (p, h) = cc (lowercase x p, any-lowercase s l h)

  aliases-lowercase : (k : ParticipantKind) → All (λ x. is_lowercase x ≡ true) (kind_aliases k)
  unfolding kind_aliases
  aliases-lowercase invalid = (refl, (refl, (refl, (refl, tt))))
  aliases-lowercase blank = (refl, (refl, (refl, (refl, tt))))
  aliases-lowercase echo = (refl, (refl, (refl, (refl, tt))))
  aliases-lowercase dummy = (refl, (refl, (refl, (refl, tt))))
  aliases-lowercase simple_rtps = (refl, (refl, (refl, (refl, tt))))
  aliases-lowercase local_discovery_server = (refl, (refl, (refl, (refl, tt))))
  aliases-lowercase wan_discovery_server = (refl, (refl, (refl, (refl, tt))))
  aliases-lowercase wan_initial_peers = (refl, (refl, (refl, (refl, tt))))

  first_alias-lowercase :
      (s : Text) (l : List ParticipantKind)
      → first_alias to_lowercase s l ≡ first_alias (λ t. t) s l
  unfolding first_alias
  first_alias-lowercase s [] = refl
  first_alias-lowercase s (k ∷ l) =
      cc (any-lowercase s (kind_aliases k) (aliases-lowercase k), first_alias-lowercase s l)

-- The kind that a name in lower case stands for.
abbrev IsKind : ParticipantKind → Text → Type 0
IsKind k s = is_empty s ≡ false → first_alias (λ t. t) s all_participant_kinds ≡ k

first_alias-aliases : (k : ParticipantKind) → All (IsKind k) (kind_aliases k)
unfolding first_alias kind_aliases text_eq
first_alias-aliases invalid =
    ((λ h. refl), ((λ h. absurd (cc h)), ((λ h. absurd (cc h)), ((λ h. absurd (cc h)), tt))))
first_alias-aliases blank =
    ((λ h. refl), ((λ h. refl), ((λ h. absurd (cc h)), ((λ h. absurd (cc h)), tt))))
first_alias-aliases echo =
    ((λ h. refl), ((λ h. absurd (cc h)), ((λ h. absurd (cc h)), ((λ h. absurd (cc h)), tt))))
first_alias-aliases dummy =
    ((λ h. refl), ((λ h. absurd (cc h)), ((λ h. absurd (cc h)), ((λ h. absurd (cc h)), tt))))
first_alias-aliases simple_rtps =
    ((λ h. refl), ((λ h. refl), ((λ h. absurd (cc h)), ((λ h. absurd (cc h)), tt))))
first_alias-aliases local_discovery_server =
    ((λ h. refl), ((λ h. refl), ((λ h. refl), ((λ h. refl), tt))))
first_alias-aliases wan_discovery_server =
    ((λ h. refl), ((λ h. refl), ((λ h. absurd (cc h)), ((λ h. absurd (cc h)), tt))))
first_alias-aliases wan_initial_peers =
    ((λ h. refl), ((λ h. refl), ((λ h. refl), ((λ h. absurd (cc h)), tt))))

-- What a name that is not empty is looked up as.
participant_kind_from_name_lem :
    (to_lowercase : Text → Text)
    → ((s : Text) → is_lowercase s ≡ true → to_lowercase s ≡ s)
    → (name : Text) → is_empty name ≡ false
    → participant_kind_from_name to_lowercase name
      ≡ first_alias (λ t. t) (to_lowercase name) all_participant_kinds
unfolding participant_kind_from_name
participant_kind_from_name_lem to_lowercase lowercase name h =
    let e =
      first_alias-lowercase to_lowercase lowercase (to_lowercase name) all_participant_kinds in
    cc (h, e)

-- If `to_lowercase` keeps a text without upper case letters, then a name that is not empty, and that
-- in lower case is one of the aliases of a kind which is not empty, is read as that kind.
pub participant_kind_from_name-aliases :
    (to_lowercase : Text → Text)
    → ((s : Text) → is_lowercase s ≡ true → to_lowercase s ≡ s)
    → (k : ParticipantKind) (name : Text) → is_empty name ≡ false
    → is_empty (to_lowercase name) ≡ false
    → any (text_eq (to_lowercase name)) (kind_aliases k) ≡ true
    → participant_kind_from_name to_lowercase name ≡ k
participant_kind_from_name-aliases to_lowercase lowercase k name h i j =
    participant_kind_from_name_lem to_lowercase lowercase name h
    ∙ any-All (IsKind k) (to_lowercase name) (kind_aliases k) j (first_alias-aliases k) i

-- The kinds whose printed name is one of their aliases.
abbrev pub is_readable : ParticipantKind → Bool
is_readable invalid = false
is_readable simple_rtps = false
is_readable wan_initial_peers = false
is_readable _ = true

string_lowercase : (k : ParticipantKind) → is_lowercase (kind_string k) ≡ true
unfolding kind_string
string_lowercase invalid = refl
string_lowercase blank = refl
string_lowercase echo = refl
string_lowercase dummy = refl
string_lowercase simple_rtps = refl
string_lowercase local_discovery_server = refl
string_lowercase wan_discovery_server = refl
string_lowercase wan_initial_peers = refl

string_some : (k : ParticipantKind) → is_empty (kind_string k) ≡ false
unfolding kind_string
string_some invalid = refl
string_some blank = refl
string_some echo = refl
string_some dummy = refl
string_some simple_rtps = refl
string_some local_discovery_server = refl
string_some wan_discovery_server = refl
string_some wan_initial_peers = refl

string_kind :
    (k : ParticipantKind)
    → first_alias (λ t. t) (kind_string k) all_participant_kinds
      ≡ (if is_readable k then k else invalid)
unfolding first_alias kind_string text_eq
string_kind invalid = refl
string_kind blank = refl
string_kind echo = refl
string_kind dummy = refl
string_kind simple_rtps = refl
string_kind local_discovery_server = refl
string_kind wan_discovery_server = refl
string_kind wan_initial_peers = refl

-- If `to_lowercase` keeps a text without upper case letters, then the name that is printed for a kind
-- is read back as this kind, except for simple_rtps and wan_initial_peers, whose printed names are
-- read as the invalid kind.
pub participant_kind_from_name-kind_string :
    (to_lowercase : Text → Text)
    → ((s : Text) → is_lowercase s ≡ true → to_lowercase s ≡ s)
    → (k : ParticipantKind)
    → participant_kind_from_name to_lowercase (kind_string k)
      ≡ (if is_readable k then k else invalid)
participant_kind_from_name-kind_string to_lowercase lowercase k =
    participant_kind_from_name_lem to_lowercase lowercase (kind_string k) (string_some k)
    ∙ ap (λ s. first_alias (λ t. t) s all_participant_kinds)
        (lowercase (kind_string k) (string_lowercase k))
    ∙ string_kind k
