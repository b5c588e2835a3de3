-- ===== src/Tests/Board.antt =====
-- Conditions as four fields, and the manager that keeps `ready` their conjunction.
use eventing_gitlab.Base.{◌≡◌, ◌≢◌, ◌↔◌, refl, String, arith}
use eventing_gitlab.Source.Status.{
  ConditionType, ready, sink_provided, deployed, webhook_configured, Message, Condition, is_true,
  is_false, is_unknown, ConditionManager,
}

pub record Board : Type 0 where
  pub sink : Condition
  pub adapter : Condition
  pub webhook : Condition
  pub sum : Condition

abbrev both : Condition → Condition → Condition
both is_true c = c
both (is_false reason m) c = is_false reason m
both is_unknown c = is_unknown

abbrev read : Board → ConditionType → Condition
read b ready = b.sum
read b sink_provided = b.sink
read b deployed = b.adapter
read b webhook_configured = b.webhook

abbrev write : ConditionType → Condition → Board → Board
write ready c b = record b { sum = c }
write sink_provided c b = record b { sink = c }
write deployed c b = record b { adapter = c }
write webhook_configured c b = record b { webhook = c }

abbrev summed : Board → Board
summed b = record b { sum = both b.sink (both b.adapter b.webhook) }

abbrev set_true : ConditionType → Board → Board
set_true t b = summed (write t is_true b)

abbrev set_false : ConditionType → String → Message → Board → Board
set_false t reason m b = record (write t (is_false reason m) b) { sum = is_false reason m }

both_iff : (c d : Condition) → (both c d ≡ is_true) ↔ ((c ≡ is_true) × (d ≡ is_true))
both_iff is_true d = ground arith
both_iff (is_false reason m) d = ground arith
both_iff is_unknown d = ground arith

pub all_iff :
    (b : Board)
    → (both b.sink (both b.adapter b.webhook) ≡ is_true)
      ↔ ((b.sink ≡ is_true) × (b.adapter ≡ is_true) × (b.webhook ≡ is_true))
all_iff b = ground (arith, both_iff b.sink (both b.adapter b.webhook), both_iff b.adapter b.webhook)

pub read-set_true : (t : ConditionType) (b : Board) → t ≢ ready → read (set_true t b) t ≡ is_true
read-set_true ready b h = absurd (h refl)
read-set_true sink_provided b h = refl
read-set_true deployed b h = refl
read-set_true webhook_configured b h = refl

pub read-set_true_ne :
    (t u : ConditionType) (b : Board) → u ≢ t → u ≢ ready → read (set_true t b) u ≡ read b u
read-set_true_ne t ready b h k = absurd (k refl)
read-set_true_ne sink_provided sink_provided b h k = absurd (h refl)
read-set_true_ne deployed deployed b h k = absurd (h refl)
read-set_true_ne webhook_configured webhook_configured b h k = absurd (h refl)
read-set_true_ne ready _ b h k = refl
read-set_true_ne _ _ b h k = refl

pub read-set_false :
    (t : ConditionType) (reason : String) (m : Message) (b : Board)
    → read (set_false t reason m b) t ≡ is_false reason m
read-set_false ready reason m b = refl
read-set_false sink_provided reason m b = refl
read-set_false deployed reason m b = refl
read-set_false webhook_configured reason m b = refl

pub read-set_false_ne :
    (t u : ConditionType) (reason : String) (m : Message) (b : Board)
    → u ≢ t
    → u ≢ ready
    → read (set_false t reason m b) u ≡ read b u
read-set_false_ne t ready reason m b h k = absurd (k refl)
read-set_false_ne sink_provided sink_provided reason m b h k = absurd (h refl)
read-set_false_ne deployed deployed reason m b h k = absurd (h refl)
read-set_false_ne webhook_configured webhook_configured reason m b h k = absurd (h refl)
read-set_false_ne _ _ reason m b h k = refl

abbrev pub board_manager : ConditionManager Board
board_manager = record {
  get = read;
  mark_true = set_true;
  mark_false = set_false;
  get-mark_true = read-set_true;
  get-mark_true_ne = read-set_true_ne;
  ready-mark_true = λ t b h. all_iff (write t is_true b);
  get-mark_false = read-set_false;
  get-mark_false_ne = read-set_false_ne;
  ready-mark_false = λ t reason m b. refl;
}
