-- ===== src/Audit/Logged.antt =====
-- Computations that write an entry of the audit log: the rules for the methods of backend/internal/service.
use Prim.Native.String.{String}
use gb_522_l7o.Prelude.{
  ℕ, ◌≤◌, ◌≡◌, sym, subst, ◌∙◌, ap, Bool, true, false, Option, some, List, length, length-append,
  get_elem?, get_elem?-append, get_elem?-append_last, if◌then◌else◌, arith, Bool-cases, inl, inr,
}
use gb_522_l7o.Errors.{Error, ok}
use gb_522_l7o.Json.{Json}
use gb_522_l7o.Model.{AuditLog}
use gb_522_l7o.Database.{World, Env, M, ◌>>=◌, raise, on_error, transaction}
use gb_522_l7o.Database.Preserves.{Preserves, on_error-world}
use gb_522_l7o.Cases.Inversion.{>>=-inv, raise-inv, on_error-inv, transaction-inv}
use gb_522_l7o.Algorithm.Detect.Pipeline.{Result-cases}
use gb_522_l7o.Audit.{Actor, is_blank, audit, create_audit}
use gb_522_l7o.Audit.Appended.{Appended, IsAuditEnv, audit_guarantee}

module _ {F : Type 0} where
  -- Behind the entries that there were stands one of this action, by this actor, in this request.
  pub record HasEntry (actor : Actor) (action : String) (rows later : List (AuditLog F))
      : Type 0 where
    pub place : ℕ
    pub entry : AuditLog F
    pub behind : length rows ≤ place
    pub present : get_elem? later place ≡ some entry
    pub same_action : entry.action ≡ action
    pub same_actor : entry.actor_id ≡ actor.id
    pub same_name : entry.actor_name ≡ actor.username
    pub same_request : entry.request_id ≡ actor.request_id

  pub HasEntry-before :
      (actor : Actor) (action : String) (rows middle later : List (AuditLog F))
      → Appended rows middle
      → HasEntry actor action middle later
      → HasEntry actor action rows later
  HasEntry-before actor action rows middle later (new, e, named) h =
      let longer = ap length e ∙ length-append rows new in
      record {
        place = h.place;
        entry = h.entry;
        behind = omega (arith, longer, h.behind);
        present = h.present;
        same_action = h.same_action;
        same_actor = h.same_actor;
        same_name = h.same_name;
        same_request = h.same_request;
      }

  HasEntry-after :
      (actor : Actor) (action : String) (rows middle later : List (AuditLog F))
      → Appended middle later
      → HasEntry actor action rows middle
      → HasEntry actor action rows later
  HasEntry-after actor action rows middle later (new, e, named) h = record {
    place = h.place;
    entry = h.entry;
    behind = h.behind;
    present =
        subst (λ l. get_elem? l h.place ≡ some h.entry) (sym e)
          (get_elem?-append middle new h.place h.entry h.present);
    same_action = h.same_action;
    same_actor = h.same_actor;
    same_name = h.same_name;
    same_request = h.same_request;
  }

-- The computation succeeds only with such an entry.
pub record Logs {F A : Type 0} (actor : Actor) (action : String) (m : M F A) : Type 0 where
  pub logs : (w : World F) (a : A) → (m w).0 ≡ ok a → HasEntry actor action w.audits (m w).1.audits

module _ {F A B : Type 0} (actor : Actor) (action : String) (m : M F A) (k : A → M F B) where
  -- The first part writes the entry, or the second.
  pub Logs-first :
      Logs actor action m
      → ((a : A) → Preserves audit_guarantee (k a))
      → Logs actor action (m >>= k)
  Logs-first first rest = record {
    logs = λ w b h.
        let (a, made, done, left) = >>=-inv m k w b h in
        subst (λ v. HasEntry actor action w.audits v.audits) (sym left)
          (HasEntry-after actor action w.audits (m w).1.audits (k a (m w).1).1.audits
            ((rest a).keeps (m w).1) (first.logs w a made));
  }

  pub Logs-then :
      Preserves audit_guarantee m
      → ((a : A) → Logs actor action (k a))
      → Logs actor action (m >>= k)
  Logs-then first rest = record {
    logs = λ w b h.
        let (a, made, done, left) = >>=-inv m k w b h in
        subst (λ v. HasEntry actor action w.audits v.audits) (sym left)
          (HasEntry-before actor action w.audits (m w).1.audits (k a (m w).1).1.audits
            (first.keeps w) ((rest a).logs (m w).1 b done));
  }

module _ {F A : Type 0} (actor : Actor) (action : String) where
  pub Logs-raise : (e : Error) → Logs {F = F} {A = A} actor action (raise e)
  Logs-raise e = record { logs = λ w a h. absurd (raise-inv e w a h) }

  pub Logs-if :
      (b : Bool) (m k : M F A)
      → Logs actor action m
      → Logs actor action k
      → Logs actor action (if b then m else k)
  Logs-if true m k hm hk = hm
  Logs-if false m k hm hk = hk

  pub Logs-on_error :
      (g : Error → Error) (m : M F A) → Logs actor action m → Logs actor action (on_error g m)
  Logs-on_error g m h = record {
    logs = λ w a e.
        subst (λ v. HasEntry actor action w.audits v.audits) (sym (on_error-world g m w))
          (h.logs w a (on_error-inv g m w a e));
  }

  pub Logs-transaction :
      (env : Env F) (m : M F A)
      → IsAuditEnv env
      → Logs actor action m
      → Logs actor action (transaction env m)
  Logs-transaction env m laws h = record {
    logs = λ w a e.
        let started = env.others w in
        let (done, left) = transaction-inv env m w a e in
        subst (λ v. HasEntry actor action w.audits v.audits) (sym left)
          (HasEntry-before actor action w.audits started.audits (m started).1.audits (laws.others w)
            (h.logs started a done));
  }

module _ {F : Type 0} (env : Env F) (actor : Actor) (action : String) where
  pub Logs-audit :
      (resource : String) (id : ℕ) (route_id : Option ℕ) (before after : Json F)
      → IsAuditEnv env
      → Logs actor action (create_audit env (audit actor action resource id route_id before after))
  unfolding create_audit audit
  Logs-audit resource id route_id before after laws = record {
    logs = λ w a h.
        let entry = audit actor action resource id route_id before after in
        let made = create_audit env entry w in
        elim (Bool-cases (is_blank actor.request_id)) [
          | inl blank ↦ absurd (ground arith)
          | inr named ↦ elim (Result-cases (env.audits.create w.clock entry w.audits)) [
            | inr (e, q) ↦ absurd (ground arith)
            | inl ((e, rows), q) ↦
                let (n, stamped, fresh, added) =
                  laws.audits.create_ok w.clock entry w.audits e rows q in
                let last : get_elem? made.1.audits (length w.audits) ≡ some e =
                  subst (λ l. get_elem? l (length w.audits) ≡ some e) {x = rows} (ground arith)
                    (subst (λ l. get_elem? l (length w.audits) ≡ some e) (sym added)
                      (get_elem?-append_last w.audits e)) in
                record {
                  place = length w.audits;
                  entry = e;
                  behind = omega arith;
                  present = last;
                  same_action = ap (λ r. r.action) stamped;
                  same_actor = ap (λ r. r.actor_id) stamped;
                  same_name = ap (λ r. r.actor_name) stamped;
                  same_request = ap (λ r. r.request_id) stamped;
                }
          ]
        ];
  }

pub ruleset logs =
    (Logs-first, Logs-then, Logs-raise, Logs-if, Logs-on_error, Logs-transaction, Logs-audit)
