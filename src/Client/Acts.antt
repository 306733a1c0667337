-- ===== src/Client/Acts.antt =====
-- Steps of the client: those that succeed taken apart, what holds of their values, and what they keep.
use mathlib.Core.Path.{subst}
use qcore_rs.Prelude.{◌≡◌, refl, sym, ap, ◌∙◌, Result, ok, err, map_err, Text}
use qcore_rs.Contract.OrderCall.{OrderCrates}
use qcore_rs.Client.Endpoint.{check_endpoint}
use qcore_rs.Client.{Setup, Client, ClientError, Act, ◌>>=◌, after, give, rpc, posted, read_answer}

module _ {G A B : Type 0} where
  pub act_ok :
      (done : Result ClientError A × Client G) (rest : A → Act G B) (b : B)
      → (after done rest).0 ≡ ok b
      → (a : A) × (done.0 ≡ ok a) × (after done rest ≡ rest a done.1)
  act_ok (err e, s) rest b h = absurd (cc)
  act_ok (ok a, s) rest b h = (a, refl, refl)

  pub give_ok :
      (r : Result ClientError A) (rest : A → Act G B) (s : Client G) (b : B)
      → ((give r >>= rest) s).0 ≡ ok b
      → (a : A) × (r ≡ ok a) × ((give r >>= rest) s ≡ rest a s)
  give_ok (err e) rest s b h = absurd (cc)
  give_ok (ok a) rest s b h = (a, refl, refl)

  -- A step that keeps the shared session is one more that does, after any other.
  pub keeps_shared :
      (done : Result ClientError A × Client G) (rest : A → Act G B)
      → ((a : A) → done.0 ≡ ok a → (rest a done.1).1.shared ≡ done.1.shared)
      → (after done rest).1.shared ≡ done.1.shared
  keeps_shared (err e, t) rest h = refl
  keeps_shared (ok a, t) rest h = h a refl

-- What holds of the value that a step gives, whatever the state.
abbrev pub Ensures : {G A : Type 0} → (A → Type 0) → Act G A → Type 0
Ensures {G} {A} P act = (s : Client G) (a : A) → (act s).0 ≡ ok a → P a

pub bind-Ensures :
    {G A B : Type 0} (P : B → Type 0) (first : Act G A) (rest : A → Act G B)
    → ((a : A) → Ensures P (rest a))
    → Ensures P (first >>= rest)
bind-Ensures P first rest later s b h =
    let (a, found, at) = act_ok (first s) rest b h in
    later a (first s).1 b (ap (λ x. x.0) (sym at) ∙ h)

pub give-Ensures :
    {G A : Type 0} (P : A → Type 0) (r : Result ClientError A)
    → ((a : A) → r ≡ ok a → P a)
    → Ensures {G = G} P (give r)
give-Ensures P r holds s a h = holds a h

-- A part of the client that a step leaves as it was.
abbrev pub Keeps : {G X A : Type 0} → (Client G → X) → Act G A → Type 0
Keeps {G} view act = (s : Client G) → view (act s).1 ≡ view s

module _ {G X : Type 0} (view : Client G → X) where
  after-Keeps :
      {A B : Type 0} (s : Client G) (done : Result ClientError A × Client G) (rest : A → Act G B)
      → view done.1 ≡ view s
      → ((a : A) → Keeps view (rest a))
      → view (after done rest).1 ≡ view s
  after-Keeps s (err e, t) rest h later = h
  after-Keeps s (ok a, t) rest h later = later a t ∙ h

  pub bind-Keeps :
      {A B : Type 0} (first : Act G A) (rest : A → Act G B)
      → Keeps view first
      → ((a : A) → Keeps view (rest a))
      → Keeps view (first >>= rest)
  bind-Keeps first rest here later s = after-Keeps s (first s) rest (here s) later

  pub give-Keeps : {A : Type 0} (r : Result ClientError A) → Keeps view (give r)
  give-Keeps r s = refl

  pub rpc-Keeps :
      (c : OrderCrates) (setup : Setup G) (method body : Text)
      → ((s : Client G) (g : G) → view (record s { gateway = g }) ≡ view s)
      → Keeps view (rpc c setup method body)
  unfolding rpc
  rpc-Keeps c setup method body ignores =
      bind-Keeps (give (map_err ClientError.endpoint (check_endpoint setup.base))) _ (λ _. refl)
        (λ _.
          bind-Keeps (posted c setup method body) _ (λ s. ignores s _)
            (λ reply. give-Keeps (read_answer c setup method reply)))

-- What holds of the value, from the states that meet `I`.
abbrev pub Guarded : {G A : Type 0} → (Client G → Type 0) → (A → Type 0) → Act G A → Type 0
Guarded {G} {A} I P act = (s : Client G) → I s → (a : A) → (act s).0 ≡ ok a → P a

abbrev pub Preserves : {G A : Type 0} → (Client G → Type 0) → Act G A → Type 0
Preserves {G} I act = (s : Client G) → I s → I (act s).1

module _ {G : Type 0} (I : Client G → Type 0) where
  pub bind-Guarded :
      {A B : Type 0} (Q : A → Type 0) (P : B → Type 0) (first : Act G A) (rest : A → Act G B)
      → Preserves I first
      → Guarded I Q first
      → ((a : A) → Q a → Guarded I P (rest a))
      → Guarded I P (first >>= rest)
  bind-Guarded Q P first rest kept learnt later s i b h =
      let (a, found, at) = act_ok (first s) rest b h in
      later a (learnt s i a found) (first s).1 (kept s i) b (ap (λ x. x.0) (sym at) ∙ h)

  -- A step of which nothing is learnt.
  pub then-Guarded :
      {A B : Type 0} (P : B → Type 0) (first : Act G A) (rest : A → Act G B)
      → Preserves I first
      → ((a : A) → Guarded I P (rest a))
      → Guarded I P (first >>= rest)
  then-Guarded P first rest kept later =
      bind-Guarded (λ _. Unit) P first rest kept (λ s i a h. tt) (λ a _. later a)

  -- The last step that needs `I`.
  pub last-Guarded :
      {A B : Type 0} (Q : A → Type 0) (P : B → Type 0) (first : Act G A) (rest : A → Act G B)
      → Guarded I Q first
      → ((a : A) → Q a → Ensures P (rest a))
      → Guarded I P (first >>= rest)
  last-Guarded Q P first rest learnt later s i b h =
      let (a, found, at) = act_ok (first s) rest b h in
      later a (learnt s i a found) (first s).1 b (ap (λ x. x.0) (sym at) ∙ h)

-- What depends on a part that is kept is preserved.
pub Keeps-Preserves :
    {G X A : Type 0} (view : Client G → X) (I : X → Type 0) (act : Act G A)
    → Keeps view act
    → Preserves (λ s. I (view s)) act
Keeps-Preserves view I act keeps s i = subst I (sym (keeps s)) i
