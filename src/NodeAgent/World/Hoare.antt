-- ===== src/NodeAgent/World/Hoare.antt =====
-- What an action of the agent ensures: from a world with a property it answers in one with another, or
-- raises in one with a third.
use jenkins_qemu_provisioner.Prelude.{◌≡◌, refl, ◌∙◌, List}
use jenkins_qemu_provisioner.NodeAgent.State.{Vm}
use jenkins_qemu_provisioner.NodeAgent.World.{Error, Outcome, ok, raised, Node, Act, catch, ◌>>=◌}

abbrev pub After :
    {A : Type 0} → (A → Node → Type 0) → (Error → Node → Type 0) → Outcome A × Node → Type 0
After Q E (ok a, n) = Q a n
After Q E (raised e, n) = E e n

abbrev pub Ensures :
    {A : Type 0} → (Node → Type 0) → Act A → (A → Node → Type 0) → (Error → Node → Type 0) → Type 0
Ensures P m Q E = (n : Node) → P n → After Q E (m n)

module _ {A B : Type 0} (R : A → Node → Type 0) (Q : B → Node → Type 0)
    (E : Error → Node → Type 0) where
  bind_step :
      (f : A → Act B) (p : Outcome A × Node)
      → After R E p
      → ((a : A) → Ensures (R a) (f a) Q E)
      → After Q E (elim p.0 [ ok a ↦ f a p.1 | raised e ↦ (raised e, p.1) ])
  bind_step f (ok a, n) h k = k a n h
  bind_step f (raised e, n) h k = h

  pub bind-Ensures :
      (P : Node → Type 0) (m : Act A) (f : A → Act B)
      → Ensures P m R E
      → ((a : A) → Ensures (R a) (f a) Q E)
      → Ensures P (m >>= f) Q E
  bind-Ensures P m f h k n p = bind_step f (m n) (h n p) k

module _ {A : Type 0} (Q : A → Node → Type 0) (E F : Error → Node → Type 0) where
  catch_step :
      (handler : Error → Act A) (p : Outcome A × Node)
      → After Q E p
      → ((e : Error) → Ensures (E e) (handler e) Q F)
      → After Q F (elim p.0 [ ok a ↦ (ok a, p.1) | raised e ↦ handler e p.1 ])
  catch_step handler (ok a, n) h k = h
  catch_step handler (raised e, n) h k = k e n h

  pub catch-Ensures :
      (P : Node → Type 0) (m : Act A) (handler : Error → Act A)
      → Ensures P m Q E
      → ((e : Error) → Ensures (E e) (handler e) Q F)
      → Ensures P (catch m handler) Q F
  catch-Ensures P m handler h k n p = catch_step handler (m n) (h n p) k

-- The table of machines stays as it is, whatever comes of an action.
abbrev pub Keeps : {A : Type 0} → Act A → Type 0
Keeps m = (n : Node) → (m n).1.vms ≡ n.vms

module _ {A : Type 0} where
  kept_step :
      (vms : List Vm) (p : Outcome A × Node)
      → p.1.vms ≡ vms
      → After (λ _ n. n.vms ≡ vms) (λ _ n. n.vms ≡ vms) p
  kept_step vms (ok a, n) h = h
  kept_step vms (raised e, n) h = h

  pub Keeps-Ensures :
      (vms : List Vm) (m : Act A)
      → Keeps m
      → Ensures (λ n. n.vms ≡ vms) m (λ _ n. n.vms ≡ vms) (λ _ n. n.vms ≡ vms)
  Keeps-Ensures vms m h n p = kept_step vms (m n) (h n ∙ p)

module _ {A B : Type 0} where
  bind_kept :
      (f : A → Act B) (p : Outcome A × Node)
      → ((a : A) → Keeps (f a))
      → (elim p.0 as (λ _. Outcome B × Node) [ ok a ↦ f a p.1 | raised e ↦ (raised e, p.1) ]).1.vms
        ≡ p.1.vms
  bind_kept f (ok a, n) k = k a n
  bind_kept f (raised e, n) k = refl

  pub bind-Keeps : (m : Act A) (f : A → Act B) → Keeps m → ((a : A) → Keeps (f a)) → Keeps (m >>= f)
  bind-Keeps m f h k n = bind_kept f (m n) k ∙ h n
