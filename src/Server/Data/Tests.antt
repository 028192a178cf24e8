-- ===== src/Server/Data/Tests.antt =====
-- Requests on two stored objects, of which the second has the first as a member.
use libvineyard.Base.{
  ℕ, ◌<◌, ◌^◌, ◌≡◌, false, some, List, [], ◌∷◌, if◌then◌else◌, is_set, none, arith, All,
}
use libvineyard.Base.Multimap.{member}
use libvineyard.Base.Table.{Table, lookup}
use libvineyard.Common.Ptree.Concrete.{concrete, concrete_laws}
use libvineyard.Common.Protocols.{result}
use libvineyard.Common.Protocols.Replies.{read_get_data_replies, write_get_data_reply}
use libvineyard.Common.Status.{ok}
use libvineyard.Common.Uuid.{object_id_to_string}
use libvineyard.Meta.Paths.{text_eq}
use libvineyard.Meta.Service.{TreeLibrary, Service}
use libvineyard.Meta.Service.Requests.{Answers}
use libvineyard.Meta.Tree.Reading.{get_data}
use libvineyard.Meta.Tree.Tests.{store, rank, store-Ranked}
use libvineyard.Server.Data.{eval_objects, del_data}
use libvineyard.Server.Startup.{Server, new_server}
use libvineyard.Server.Data.Group.{seen, eval_objects_lem}
use libvineyard.Server.Data.Deletion.{Commits, FromDeletion, del_data-FromDeletion}

-- The second object, the first, the first again, and one that is not there.
abbrev ids : List ℕ
ids = 34 ∷ 17 ∷ 17 ∷ 99 ∷ []

ids_fit : All (λ id. (id < 2 ^ 64) × (rank (object_id_to_string id) < 2)) ids
unfolding text_eq object_id_to_string
ids_fit = (
  (omega arith, omega arith),
  ((omega arith, omega arith), ((omega arith, omega arith), ((omega arith, omega arith), tt))),
)

eval_objects_lem_example :
    (group : concrete.Ptree) × (objects : Table concrete.Ptree) × (eval_objects concrete 2 ids store
      ≡ some group)
    × (read_get_data_replies concrete (write_get_data_reply concrete group) ≡ result objects)
    × ((j : ℕ)
        → lookup j objects ≡ (
            if member j ids
            then seen concrete (get_data concrete 2 store (object_id_to_string j))
            else none))
eval_objects_lem_example = eval_objects_lem concrete_laws rank 2 store ids store-Ranked ids_fit

-- The tree of the service is the property tree.
abbrev same_tree : TreeLibrary
same_tree = record {
  Tree = concrete.Ptree;
  put_value = λ key val t. concrete.put key val t;
  has_node = λ path t. is_set (concrete.child path t);
  node_is_empty = λ path t. false;
  erase_below = λ path name t. some t;
  put_below = λ path name val t. some t;
  stoul = λ s. some 1;
}

abbrev service : Service same_tree
service = record {
  meta = store;
  rev = 7;
  dependencies = record { subobjects = []; supobjects = [] };
  instances_list = [];
}

-- All parts of the server are up.
abbrev serving : Server
serving = record new_server { ready = 0b111 }

abbrev answers : Answers
answers = record {
  lock_status = ok;
  lock_rev = 9;
  values_status = ok;
  values = [];
  values_rev = 10;
  commit_status = ok;
  rev_after_unlock = some 11;
}

del_data-FromDeletion_example :
    Commits
      (FromDeletion concrete {s = same_tree} (λ t. t) answers 2 (17 ∷ []) false false service)
      (del_data concrete {s = same_tree} (λ t. t) serving answers 2 (17 ∷ []) false false service)
del_data-FromDeletion_example =
    del_data-FromDeletion concrete {s = same_tree} (λ t. t) serving answers 2 (17 ∷ []) false false
      service
