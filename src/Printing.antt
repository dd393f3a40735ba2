-- ===== src/Printing.antt =====
-- The printing functions of src/core/interval.c, src/core/interval_list.c,
-- src/core/interval_avl_tree.c, src/core/notif_avl_tree.c and src/core/interval_tree.c, with `LOG`
-- of include/util.h.
pub mod Order
pub mod Stats
use Prim.Native.String.{String}
use parcoach_rma.Common.{ℕ, ◌*◌, ◌%◌, Bool, List, [], ◌∷◌, ◌++◌, ℤ, pos, if◌then◌else◌}
use parcoach_rma.Interval.{
  AccessType, local_read, local_write, rma_read, rma_write, Interval, get_low_bound, get_up_bound,
}
use parcoach_rma.Avl.{Tree, null, node, ulong_mod}
use parcoach_rma.NotifTree.{NotifTree}
use parcoach_rma.IntervalTree.{IntervalTree}

-- What a call of `printf` or `fprintf` writes, as the texts of its format and the values between
-- them: `PRIu64` and `%lu` are unsigned, `%d` is signed.
pub data Chunk : Type 0 where
  literal : String → Chunk
  unsigned : ℕ → Chunk
  signed : ℤ → Chunk

abbrev pub Output : Type 0
Output = List Chunk

-- `access_type_to_str`.
abbrev pub access_type_to_str : AccessType → String
access_type_to_str local_read = "LOCAL_READ"
access_type_to_str local_write = "LOCAL_WRITE"
access_type_to_str rma_read = "RMA_READ"
access_type_to_str rma_write = "RMA_WRITE"

-- The texts of the `switch` in `print_interval`.
abbrev pub access_text : AccessType → String
access_text local_read = "LOCAL READ\n"
access_text local_write = "LOCAL WRITE\n"
access_text rma_read = "RMA READ\n"
access_text rma_write = "RMA WRITE\n"

-- `LOG` writes only where the macro `__DEBUG` is set.
module _ (debug : Bool) where
  unfoldable pub log : Output → Output
  log out = if debug then out else []

  unfoldable pub print_interval : Interval → Output
  print_interval itv =
      log (
        literal "Interval = ["
        ∷ unsigned itv.low_bound
        ∷ literal " ,"
        ∷ unsigned itv.up_bound
        ∷ literal "] "
        ∷ [])
      ++ log (literal "notif_id " ∷ signed itv.notification_id ∷ literal " " ∷ [])
      ++ log (literal (access_text itv.access_type) ∷ [])

  -- `while(li_inter != NULL)`.
  unfoldable pub print_links : List Interval → Output
  print_links [] = []
  print_links (itv ∷ next) = print_interval itv ++ print_links next

  unfoldable pub print_interval_list : List Interval → Output
  print_interval_list [] = log (literal "rien à afficher la liste est vide\n" ∷ [])
  print_interval_list (itv ∷ next) = print_links (itv ∷ next)

  unfoldable pub in_order_print_interval_tree : IntervalTree → Output
  in_order_print_interval_tree null = []
  in_order_print_interval_tree (node itv left right h size) =
      print_interval itv ++ in_order_print_interval_tree left ++ in_order_print_interval_tree right

  unfoldable pub in_order_print_notif_tree : NotifTree → Output
  in_order_print_notif_tree null = []
  in_order_print_notif_tree (node notif left right h size) =
      print_interval notif.itv ++ in_order_print_notif_tree left ++ in_order_print_notif_tree right

-- `printf("[%"PRIu64 ", %"PRIu64 "]\n", ...)`.
abbrev pub print_bounds : Interval → Output
print_bounds itv =
    literal "["
    ∷ unsigned (get_low_bound itv)
    ∷ literal ", "
    ∷ unsigned (get_up_bound itv)
    ∷ literal "]\n"
    ∷ []

-- The function of src/core/interval_tree.c, which prints in order.
unfoldable pub in_order_print_plain_tree : IntervalTree → Output
in_order_print_plain_tree null = []
in_order_print_plain_tree (node itv left right h size) =
    in_order_print_plain_tree left ++ print_bounds itv ++ in_order_print_plain_tree right

-- The three files print the statistics alike. What `sizeof` gives for a node is the compiler's
-- choice; a product of `unsigned long` wraps around.
unfoldable pub print_tree_stats : {E : Type 0} → (sizeof_tree : ℕ) → Tree E → Output
print_tree_stats sizeof_tree null = []
print_tree_stats sizeof_tree (node itv left right h size) =
    literal "Tree statistics:\n"
    ∷ literal "Number of nodes in the tree: "
    ∷ unsigned size
    ∷ literal " \n"
    ∷ literal "Size of the tree: "
    ∷ unsigned ((size * sizeof_tree) % ulong_mod)
    ∷ literal " \n"
    ∷ literal "Depth of the longest branch of the tree: "
    ∷ signed (pos h)
    ∷ literal " \n"
    ∷ []
