-- ===== src/Items/Carry/Settled.antt =====
-- What the trades of a settled fill get and what the fill keeps.
use ngv_trader.Prelude.{ℕ, ◌≡◌, ◌⊎◌, List, [], filter, All, Text}
use ngv_trader.Items.Links.{LinkTables}
use ngv_trader.Items.Links.Laws.{AtMostOne}
use ngv_trader.Items.Carry.{is_live_tag, is_live_task}
use ngv_trader.Items.Carry.Laws.{AreOn}

-- The tables after the links of a live fill were carried to trades: every open tag of the fill is on
-- every trade and no live link is left, but without a trade the tables are as they were.
pub record IsCarried (live : Text) (trade_ids : List ℕ) (db after : LinkTables) : Type 0 where
  pub at_most_one : AtMostOne after.tag_links
  pub on_trades : All (λ t. AreOn t (filter (is_live_tag live) db.tag_links) after) trade_ids
  pub cleared :
      ((trade_ids ≡ []) × (after ≡ db))
      ⊎ ((filter (is_live_tag live) after.tag_links ≡ [])
          × (filter (is_live_task live) after.task_links ≡ []))
