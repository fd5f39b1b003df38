-- ===== src/Cmd/Server/Knowledge.antt =====
-- cmd/server/server.go: the documents of `startServer`, which teach the language of the queries
use minefield.Prelude.{String, ◌+++◌, List, [], ◌∷◌}

-- `chromadb.Document`
pub record KnowledgeDocument : Type 0 where
  pub id : String
  pub content : String

abbrev content_1 : String
content_1 =
    "To query dependencies of a package, use the format, and only output the quer"
    +++ "y: dependencies library pkg:<package_name>. All three are necessary."

abbrev content_2 : String
content_2 =
    "To find dependents of a package, use the format, and only output the query: "
    +++ "dependents library pkg:<package_name>. All three are necessary."

abbrev content_3 : String
content_3 =
    "For vulnerabilities related to a package, use the format, and only output th"
    +++ "e query: dependencies vuln pkg:<package_name>. All three are necessary."

abbrev content_4 : String
content_4 =
    "Combine queries using logical operators like and, or, and xor. All three are" +++ " necessary."

abbrev content_5 : String
content_5 =
    "When using 'and', both conditions must be true. For example, and only output"
    +++ " the query: dependencies library pkg:A and dependencies library pkg:B."

abbrev content_6 : String
content_6 =
    "When using 'or', at least one of the conditions must be true. For example, a"
    +++ "nd only output the query: dependencies library pkg:A or dependencies library" +++ " pkg:B."

abbrev content_7 : String
content_7 =
    "Use 'xor' to indicate that only one of the conditions can be true. For examp"
    +++ "le, and only output the query: dependencies library pkg:A xor dependencies l"
    +++ "ibrary pkg:B."

abbrev content_8 : String
content_8 =
    "You can chain multiple queries together. For example, and only output the qu"
    +++ "ery: dependencies library pkg:A and dependents library pkg:B or vulnerabilit"
    +++ "ies vuln pkg:C."

abbrev content_9 : String
content_9 =
    "Package names can include versioning information. For example, and only outp"
    +++ "ut the query: dependencies library pkg:example-lib@1.0.0."

abbrev content_10 : String
content_10 =
    "Ensure that all keywords are used correctly. The keywords are: dependencies,"
    +++ " dependents, library, vuln, xor, or, and."

abbrev content_11 : String
content_11 =
    "If a query does not specify a package name, it cannot be processed. Always i"
    +++ "nclude a package name in your queries."

abbrev content_12 : String
content_12 =
    "To check for multiple vulnerabilities across different packages, you can use"
    +++ ", and only output the query: dependencies vuln pkg:A or dependencies vuln pk" +++ "g:B."

abbrev content_13 : String
content_13 =
    "When using 'or', 'and', or 'xor', to take the answer of multiple queries and"
    +++ " use an binary operator on the whole result with another query, or another s"
    +++ "et of queries, you can wrap a set of queries in brackets (), these can also "
    +++ "be nested. Example: ((dependencies library pkg:A and dependencies library pk"
    +++ "g:B) or (dependencies library pkg:C and dependencies library pkg:D)) and (de"
    +++ "pendents library pkg:E)."

abbrev content_14 : String
content_14 =
    "Leaderboard queries are a different type of query, they run queries for ever"
    +++ "y single node in the graph and return a sorted list based of length of the r" +++ "esult."

abbrev content_15 : String
content_15 =
    "To run a leaderboard query, it is quite similar to a regular query, but inst"
    +++ "ead of runing somthing like depedencies library pkg:A, you would run depende"
    +++ "ncies library. This would create a leaderboard which is sorted by each node'"
    +++ "s dependencies of type library."

abbrev content_16 : String
content_16 =
    "Leaderboards format are basicaly the same as a query, just if you do not inc"
    +++ "lude the node name for the last part of the query, it fills it with the node"
    +++ " we are using for the leaderboard, which is every single node in the leaderb"
    +++ "oard. This means that to make a proper leaderboard we should have at least o"
    +++ "ne part that does not include a node name, we can still combine this with an"
    +++ "other query. For example: (dependencies library) and (dependents library pkg"
    +++ ":github.com/bitbomdev/minefield) would create a leaderboard sorted by the nu"
    +++ "mber of dependencies a project has that is shared with minefield. We can als"
    +++ "o repeat this 2 part query multiple times, for example : dependencies librar"
    +++ "y and dependents library would work as well."

abbrev content_17 : String
content_17 =
    "If the user, or you are not sure about what the node's name is, you can use "
    +++ "the glob pattern to search for nodes. For example, if you want to search for"
    +++ " all nodes that start with 'github.com/bitbomdev', you can use the pattern '"
    +++ "github.com/bitbomdev*'. Try to lean get as many nodes as possible, so if the"
    +++ "y tell you the name is mineifield, and maybe the org is bitbomdev, you can u"
    +++ "se '*minefield*', since it will match all nodes that contain minefield, sinc"
    +++ "e they are not sure about the org."

abbrev content_18 : String
content_18 =
    "When glob seaching never assume the position of anything, so wrap everything"
    +++ " can in ** on both sides."

abbrev pub knowledge : List KnowledgeDocument
knowledge =
    record { id = "1"; content = content_1 }
    ∷ record { id = "2"; content = content_2 }
    ∷ record { id = "3"; content = content_3 }
    ∷ record { id = "4"; content = content_4 }
    ∷ record { id = "5"; content = content_5 }
    ∷ record { id = "6"; content = content_6 }
    ∷ record { id = "7"; content = content_7 }
    ∷ record { id = "8"; content = content_8 }
    ∷ record { id = "9"; content = content_9 }
    ∷ record { id = "10"; content = content_10 }
    ∷ record { id = "11"; content = content_11 }
    ∷ record { id = "12"; content = content_12 }
    ∷ record { id = "13"; content = content_13 }
    ∷ record { id = "14"; content = content_14 }
    ∷ record { id = "15"; content = content_15 }
    ∷ record { id = "16"; content = content_16 }
    ∷ record { id = "17"; content = content_17 }
    ∷ record { id = "18"; content = content_18 }
    ∷ []
